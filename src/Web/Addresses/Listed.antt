-- ===== src/Web/Addresses/Listed.antt =====
-- Which addresses an instance has, and in which order, stated without the code's helpers.
use ssh2incus.Base.{
  ◌≡◌, ◌≢◌, refl, sym, ap, ◌∙◌, ◌⊎◌, inl, inr, Bool, true, false, List, [], ◌∷◌, ◌++◌, ℕ, ◌<◌, All,
  arith, Bool-cases, Option, none, some, ◌==◌, if◌then◌else◌, ltb, not, ◌&&◌, ◌||◌,
}
use ssh2incus.Base.Text.{Text, codes, text_eq, has_prefix, cut_prefix, is_some, contains_byte}
use ssh2incus.Base.Text.Cut.{Lacks, contains_byte-Lacks}
use ssh2incus.Base.Text.Laws.{text_eq_iff}
use ssh2incus.Base.Text.Order.{text_ltb}
use ssh2incus.Base.Dict.{Dict}
use mathlib.Core.List.{Perm}
use ssh2incus.Web.Addresses.{
  NetworkAddress, AddressInfo, get_interface_priority, is_ipv6, is_inet, inet_of, collect, less,
  addresses,
}
use ssh2incus.Web.Addresses.Sorting.{IsOrdered, addresses-IsOrdered}

-- Every address of every network, beside the name of its interface.
abbrev pub named_all : Text → List NetworkAddress → List (Text × NetworkAddress)
named_all name [] = []
named_all name (a ∷ xs) = (name, a) ∷ named_all name xs

abbrev pub entries : Dict (List NetworkAddress) → List (Text × NetworkAddress)
entries [] = []
entries ((name, xs) ∷ network) = named_all name xs ++ entries network

-- `infos` are the entries of the families inet and inet6, in their order, and no others.
abbrev pub AreInet : List (Text × NetworkAddress) → List AddressInfo → Type 0
AreInet [] infos = infos ≡ []
AreInet ((name, a) ∷ es) infos =
    (((a.family ≡ codes "inet") ⊎ (a.family ≡ codes "inet6"))
      × ((rest : List AddressInfo) × (infos
            ≡ record { address = a.address; interface = name } ∷ rest)
          × AreInet es rest))
    ⊎ ((a.family ≢ codes "inet") × (a.family ≢ codes "inet6") × AreInet es infos)

is_inet-family : (t : Text) → is_inet t ≡ true → (t ≡ codes "inet") ⊎ (t ≡ codes "inet6")
is_inet-family t h = ground (arith, text_eq_iff t (codes "inet"), text_eq_iff t (codes "inet6"))

not_text : (s t : Text) → text_eq s t ≡ false → s ≢ t
not_text s t h e = let k = (text_eq_iff s t).1 e in cc

is_inet-other : (t : Text) → is_inet t ≡ false → (t ≢ codes "inet") × (t ≢ codes "inet6")
is_inet-other t h = (not_text t _ (ground arith), not_text t _ (ground arith))

inet_of-AreInet :
    (name : Text) (xs : List NetworkAddress) (es : List (Text × NetworkAddress))
    (infos : List AddressInfo)
    → AreInet es infos
    → AreInet (named_all name xs ++ es) (inet_of name xs ++ infos)
unfolding inet_of
inet_of-AreInet name [] es infos h = h
inet_of-AreInet name (a ∷ xs) es infos h = elim (Bool-cases (is_inet a.family)) [
  | inl inet ↦ rw inet (
      inl (
        is_inet-family a.family inet,
        (inet_of name xs ++ infos, refl, inet_of-AreInet name xs es infos h),
      ))
  | inr other ↦
      let (four, six) = is_inet-other a.family other in
      rw other (inr (four, six, inet_of-AreInet name xs es infos h))
]

collect-AreInet :
    (network : Dict (List NetworkAddress)) → AreInet (entries network) (collect network)
unfolding collect
collect-AreInet [] = refl
collect-AreInet ((name, xs) ∷ network) =
    inet_of-AreInet name xs (entries network) (collect network) (collect-AreInet network)

abbrev pub IsLoopback : Text → Type 0
IsLoopback i = (i ≡ codes "lo") ⊎ (i ≡ codes "lo0")

-- An interface whose name begins with `et` or `en`.
abbrev pub IsWired : Text → Type 0
IsWired i = (t : Text) × ((i ≡ codes "et" ++ t) ⊎ (i ≡ codes "en" ++ t))

-- Wired interfaces come first, and the loopback last.
abbrev pub HasRank : Text → ℕ → Type 0
HasRank i n =
    (IsLoopback i × (n ≡ 2))
    ⊎ (((IsLoopback i → ⊥) × IsWired i × (n ≡ 0))
        ⊎ ((IsLoopback i → ⊥) × (IsWired i → ⊥) × (n ≡ 1)))

-- The text of an IPv6 address has a colon.
abbrev pub IsV6 : AddressInfo → Type 0
IsV6 a = Lacks b':' a.address → ⊥

abbrev pub IsV4 : AddressInfo → Type 0
IsV4 a = Lacks b':' a.address

-- `a` may stand before `b`: by the rank of the interface, then IPv4 before IPv6, then by the text.
abbrev pub IsBefore : AddressInfo → AddressInfo → Type 0
IsBefore a b =
    (m : ℕ) × (n : ℕ) × HasRank a.interface m
    × HasRank b.interface n
    × ((m < n)
        ⊎ ((m ≡ n)
            × ((IsV4 a × IsV6 b)
                ⊎ (((IsV4 a × IsV4 b) ⊎ (IsV6 a × IsV6 b))
                    × (text_ltb b.address a.address ≡ false)))))

abbrev pub IsSorted : List AddressInfo → Type 0
IsSorted [] = Unit
IsSorted (a ∷ xs) = All (IsBefore a) xs × IsSorted xs

cut_prefix-append : (p s t : Text) → cut_prefix p s ≡ some t → s ≡ p ++ t
unfolding cut_prefix
cut_prefix-append [] s t h = cc
cut_prefix-append (c ∷ p) [] t h = cc
cut_prefix-append (c ∷ p) (d ∷ s) t h = elim (Bool-cases (c == d)) [
  | inl same ↦
      let h' : cut_prefix p s ≡ some t = rw same at h in
      let e : c ≡ d = ground arith in rw (e, cut_prefix-append p s t h') refl
  | inr other ↦ let h' : none ≡ some t = rw other at h in cc
]

append-cut_prefix : (p t : Text) → cut_prefix p (p ++ t) ≡ some t
unfolding cut_prefix
append-cut_prefix [] t = refl
append-cut_prefix (c ∷ p) t = ground (arith, append-cut_prefix p t)

cut_of :
    (p s : Text) (o : Option Text)
    → cut_prefix p s ≡ o
    → is_some o ≡ true
    → (t : Text) × (s ≡ p ++ t)
cut_of p s none e h = cc
cut_of p s (some t) e h = (t, cut_prefix-append p s t e)

has_prefix-append : (p s : Text) → has_prefix p s ≡ true → (t : Text) × (s ≡ p ++ t)
unfolding has_prefix
has_prefix-append p s h = cut_of p s (cut_prefix p s) refl h

has_prefix-false : (p s t : Text) → has_prefix p s ≡ false → s ≢ p ++ t
unfolding has_prefix
has_prefix-false p s t h e =
    let found = ap is_some (ap (cut_prefix p) e ∙ append-cut_prefix p t) in
    absurd (let k = sym found ∙ h in cc)

wired : (i : Text) → (has_prefix (codes "et") i || has_prefix (codes "en") i) ≡ true → IsWired i
wired i h = elim (Bool-cases (has_prefix (codes "et") i)) [
  | inl et ↦ let (t, e) = has_prefix-append (codes "et") i et in (t, inl e)
  | inr other ↦ let (t, e) = has_prefix-append (codes "en") i (ground arith) in (t, inr e)
]

not_wired :
    (i : Text) → (has_prefix (codes "et") i || has_prefix (codes "en") i) ≡ false → IsWired i → ⊥
not_wired i h (t, inl e) = has_prefix-false (codes "et") i t (ground arith) e
not_wired i h (t, inr e) = has_prefix-false (codes "en") i t (ground arith) e

loopback : (i : Text) → (text_eq i (codes "lo") || text_eq i (codes "lo0")) ≡ true → IsLoopback i
loopback i h = ground (arith, text_eq_iff i (codes "lo"), text_eq_iff i (codes "lo0"))

not_loopback :
    (i : Text) → (text_eq i (codes "lo") || text_eq i (codes "lo0")) ≡ false → IsLoopback i → ⊥
not_loopback i h (inl e) = not_text i _ (ground arith) e
not_loopback i h (inr e) = not_text i _ (ground arith) e

rank_if :
    (i : Text) (a b : Bool)
    → (a ≡ true → IsLoopback i)
    → (a ≡ false → IsLoopback i → ⊥)
    → (b ≡ true → IsWired i)
    → (b ≡ false → IsWired i → ⊥)
    → HasRank i (if a then 2 else if b then 0 else 1)
rank_if i true b f g h k = inl (f refl, refl)
rank_if i false true f g h k = inr (inl (g refl, h refl, refl))
rank_if i false false f g h k = inr (inr (g refl, k refl, refl))

priority-HasRank : (i : Text) → HasRank i (get_interface_priority i)
unfolding get_interface_priority
priority-HasRank i = rank_if i _ _ (loopback i) (not_loopback i) (wired i) (not_wired i)

contains_byte-not_Lacks : (b : ℕ) (s : Text) → contains_byte b s ≡ true → Lacks b s → ⊥
unfolding contains_byte
contains_byte-not_Lacks b [] h l = cc
contains_byte-not_Lacks b (c ∷ s) h (other, l) = contains_byte-not_Lacks b s (ground arith) l

version4 : (a : AddressInfo) → is_ipv6 a.address ≡ false → IsV4 a
unfolding is_ipv6
version4 a h = contains_byte-Lacks b':' a.address h

version6 : (a : AddressInfo) → is_ipv6 a.address ≡ true → IsV6 a
unfolding is_ipv6
version6 a h = contains_byte-not_Lacks b':' a.address h

-- What the comparison of two addresses says, with the answers it takes given.
less_false :
    (m n : ℕ) (v w t : Bool)
    → (if not (n == m)
        then ltb n m
        else if w && not v
        then false
        else if not w && v
        then true
        else t)
      ≡ false
    → (m < n) ⊎ ((m ≡ n) × (((v ≡ false) × (w ≡ true)) ⊎ ((v ≡ w) × (t ≡ false))))
less_false m n v w t h = ground arith

less-IsBefore : (a b : AddressInfo) → less b a ≡ false → IsBefore a b
unfolding less
less-IsBefore a b h = (
  get_interface_priority a.interface,
  get_interface_priority b.interface,
  priority-HasRank a.interface,
  priority-HasRank b.interface,
  elim (less_false _ _ (is_ipv6 a.address) (is_ipv6 b.address) _ h) [
    | inl first ↦ inl first
    | inr (same, inl (four, six)) ↦ inr (same, inl (version4 a four, version6 b six))
    | inr (same, inr (version, text)) ↦ elim (Bool-cases (is_ipv6 a.address)) [
      | inl six ↦ inr (same, inr (inr (version6 a six, version6 b (sym version ∙ six)), text))
      | inr four ↦ inr (same, inr (inl (version4 a four, version4 b (sym version ∙ four)), text))
    ]
  ],
)

All-IsBefore :
    (a : AddressInfo) (bs : List AddressInfo) → All (λ b. less b a ≡ false) bs → All (IsBefore a) bs
All-IsBefore a [] h = tt
All-IsBefore a (b ∷ bs) (h, hs) = (less-IsBefore a b h, All-IsBefore a bs hs)

ordered-IsSorted : (xs : List AddressInfo) → IsOrdered xs → IsSorted xs
ordered-IsSorted [] h = tt
ordered-IsSorted (a ∷ xs) (h, hs) = (All-IsBefore a xs h, ordered-IsSorted xs hs)

-- The addresses of an instance are the addresses of its networks whose family is inet or inet6, each as
-- often as it is there and with the name of its interface. They are sorted: interfaces named et… or
-- en… come first and the loopback last, then IPv4 comes before IPv6, and then the text decides.
pub addresses-IsSorted :
    (network : Dict (List NetworkAddress))
    → (infos : List AddressInfo) × AreInet (entries network) infos
      × Perm (addresses network) infos
      × IsSorted (addresses network)
addresses-IsSorted network =
    let (perm, ordered) = addresses-IsOrdered network in
    (collect network, collect-AreInet network, perm, ordered-IsSorted (addresses network) ordered)
