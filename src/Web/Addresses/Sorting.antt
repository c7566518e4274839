-- ===== src/Web/Addresses/Sorting.antt =====
-- The insertion sort of addresses keeps them, and puts them in the order of the code's comparison.
use ssh2incus.Base.{
  ◌≡◌, sym, ◌∙◌, inl, inr, true, false, List, [], ◌∷◌, if◌then◌else◌, All, arith, Bool-cases,
}
use ssh2incus.Base.Text.{Text}
use ssh2incus.Base.Dict.{Dict}
use ssh2incus.Base.Text.Order.{text_ltb, text_ltb_asymm, text_ltb_trans}
use mathlib.Core.List.{Perm}
use mathlib.Core.List.Perm
use ssh2incus.Web.Addresses.{
  NetworkAddress, AddressInfo, get_interface_priority, is_ipv6, collect, less, insert_sorted, sort,
  addresses,
}

-- What the comparison looks at, most important first.
abbrev key : AddressInfo → Text
key a = get_interface_priority a.interface ∷ (if is_ipv6 a.address then 1 else 0) ∷ a.address

less-key : (a b : AddressInfo) → less a b ≡ text_ltb (key a) (key b)
unfolding less text_ltb
less-key a b = ground arith

-- No address is less than one before it, by the code's comparison.
abbrev pub IsOrdered : List AddressInfo → Type 0
IsOrdered [] = Unit
IsOrdered (a ∷ xs) = All (λ b. less b a ≡ false) xs × IsOrdered xs

All-insert_sorted :
    (P : AddressInfo → Type 0) (a : AddressInfo) (bs : List AddressInfo)
    → P a
    → All P bs
    → All P (insert_sorted a bs)
unfolding insert_sorted
All-insert_sorted P a [] h hs = (h, tt)
All-insert_sorted P a (b ∷ bs) h (k, ks) = elim (Bool-cases (less a b)) [
  | inl first ↦ rw first (h, (k, ks))
  | inr later ↦ rw later (k, All-insert_sorted P a bs h ks)
]

less_asymm : (a b : AddressInfo) → less a b ≡ true → less b a ≡ false
less_asymm a b h = less-key b a ∙ text_ltb_asymm (key a) (key b) (sym (less-key a b) ∙ h)

less_trans : (a b c : AddressInfo) → less b a ≡ false → less c b ≡ false → less c a ≡ false
less_trans a b c h k =
    less-key c a
    ∙ text_ltb_trans (key a) (key b) (key c) (sym (less-key b a) ∙ h) (sym (less-key c b) ∙ k)

below :
    (a b : AddressInfo) (cs : List AddressInfo)
    → less b a ≡ false
    → All (λ c. less c b ≡ false) cs
    → All (λ c. less c a ≡ false) cs
below a b [] h hs = tt
below a b (c ∷ cs) h (k, ks) = (less_trans a b c h k, below a b cs h ks)

insert_sorted-IsOrdered :
    (a : AddressInfo) (bs : List AddressInfo) → IsOrdered bs → IsOrdered (insert_sorted a bs)
unfolding insert_sorted
insert_sorted-IsOrdered a [] h = (tt, tt)
insert_sorted-IsOrdered a (b ∷ bs) (h, hs) = elim (Bool-cases (less a b)) [
  | inl first ↦
      let before = less_asymm a b first in rw first ((before, below a b bs before h), (h, hs))
  | inr later ↦
      rw later
        (All-insert_sorted (λ c. less c b ≡ false) a bs later h, insert_sorted-IsOrdered a bs hs)
]

sort-IsOrdered : (xs : List AddressInfo) → IsOrdered (sort xs)
unfolding sort
sort-IsOrdered [] = tt
sort-IsOrdered (a ∷ xs) = insert_sorted-IsOrdered a (sort xs) (sort-IsOrdered xs)

insert_sorted-perm : (a : AddressInfo) (bs : List AddressInfo) → Perm (insert_sorted a bs) (a ∷ bs)
unfolding insert_sorted
insert_sorted-perm a [] = Perm.refl (a ∷ [])
insert_sorted-perm a (b ∷ bs) = elim (Bool-cases (less a b)) [
  | inl first ↦ rw first (Perm.refl (a ∷ b ∷ bs))
  | inr later ↦ rw later (Perm.trans (Perm.cons b (insert_sorted-perm a bs)) (Perm.swap a b bs))
]

sort-perm : (xs : List AddressInfo) → Perm (sort xs) xs
unfolding sort
sort-perm [] = Perm.refl []
sort-perm (a ∷ xs) = Perm.trans (insert_sorted-perm a (sort xs)) (Perm.cons a (sort-perm xs))

-- By the code's own comparison, the addresses are those that were collected, in order.
pub addresses-IsOrdered :
    (network : Dict (List NetworkAddress))
    → Perm (addresses network) (collect network) × IsOrdered (addresses network)
unfolding addresses
addresses-IsOrdered network = (sort-perm (collect network), sort-IsOrdered (collect network))
