-- ===== src/Forward/Direct/Destination.antt =====
-- What a forwarded channel reaches, and from where.
use ssh2incus.Base.{
  ◌≡◌, refl, ◌⊎◌, inl, inr, true, not, ◌&&◌, Option, none, some, List, [], ◌∷◌, ◌++◌, All, arith,
  Bool-cases,
}
use ssh2incus.Base.Result.{Result, ok, err}
use ssh2incus.Base.Text.{Text, codes, text_eq, is_empty, starts_with_byte}
use ssh2incus.Base.Text.Laws.{eq_of_text_eq}
use ssh2incus.Base.Dict.{Dict}
use ssh2incus.Base.Text.Decimal.{itoa}
use ssh2incus.Base.Text.HostPort.{join_host_port}
use ssh2incus.LoginUser.{Login}
use ssh2incus.LoginUser.Valid.{InstanceUser}
use ssh2incus.Forward.Direct.{
  LocalForwardChannelData, World, Event, rejected, dialed, accepted, uploaded, executed, proxy_cmd,
  dest_of, dial_instance, direct_tcpip_stdio_handler, first_address, forward_resolved, forward_to,
  if_accepted, or_reject, resolve_address, run_as, run_proxy, through_instance, with_binary,
  ethernet, found_address, proxy_env,
}

-- An address of the instance: the first of a network whose name begins with `e`.
abbrev pub IsAddressIn : Text → Dict (List Text) → Type 0
IsAddressIn a [] = ⊥
IsAddressIn a ((d, addresses) ∷ networks) =
    ((starts_with_byte b'e' d ≡ true) × ((more : List Text) × (addresses ≡ a ∷ more)))
    ⊎ IsAddressIn a networks

err-ne-ok : (m a : Text) → ◌≡◌ {A = Result Text} (err m) (ok a) → ⊥
err-ne-ok m a h = cc

module _ (w : World) (lu : Login) where
  -- An address that the context remembers from before, or one of the instance's.
  abbrev pub IsInstanceAddress : Option Text → Text → Type 0
  IsInstanceAddress resolved a =
      (resolved ≡ some a) ⊎ IsAddressIn a (w.networks lu.project lu.instance_name)

  -- The host itself connects to nothing but the instance, on the requested port; all else is run in the
  -- instance as the user of the login.
  abbrev pub IsForwarded : Option Text → LocalForwardChannelData → Event → Type 0
  IsForwarded resolved d (rejected m) = Unit
  IsForwarded resolved d accepted = Unit
  IsForwarded resolved d (dialed to) =
      (a : Text) × IsInstanceAddress resolved a × (to ≡ join_host_port a (itoa d.dest_port))
  IsForwarded resolved d (uploaded p n path) =
      (p ≡ lu.project) × (n ≡ lu.instance_name) × (path ≡ w.bin_name)
  IsForwarded resolved d (executed e) =
      (e.instance_name ≡ lu.instance_name)
      × ((iu : InstanceUser) × (w.instance_user lu.project lu.instance_name lu.instance_user
            ≡ ok (some iu))
          × (e.uid ≡ iu.uid)
          × (e.gid ≡ iu.gid)
          × (e.env ≡ proxy_env iu))
      × ((dest : Text) × (e.cmd ≡ proxy_cmd w dest d.dest_port)
          × ((dest ≡ d.dest_addr) ⊎ IsInstanceAddress resolved dest))

  module _ (resolved : Option Text) (d : LocalForwardChannelData) where
    abbrev AllForwarded : List Event → Type 0
    AllForwarded es = All (IsForwarded resolved d) es

    or_reject-All :
        {A : Type 0} (r : Result A) (say : Text → Text) (rest : A → List Event)
        → ((a : A) → r ≡ ok a → AllForwarded (rest a))
        → AllForwarded (or_reject r say rest)
    or_reject-All (ok a) say rest h = h a refl
    or_reject-All (err m) say rest h = (tt, tt)

    if_accepted-All :
        (r : Result (Unit {0})) (rest : List Event)
        → AllForwarded rest
        → AllForwarded (if_accepted r rest)
    if_accepted-All (ok u) rest h = (tt, h)
    if_accepted-All (err m) rest h = tt

    abbrev IsDest : Text → Type 0
    IsDest dest = (dest ≡ d.dest_addr) ⊎ IsInstanceAddress resolved dest

    run_as-All :
        (dest : Text) (o : Option InstanceUser)
        → w.instance_user lu.project lu.instance_name lu.instance_user ≡ ok o
        → IsDest dest
        → AllForwarded (run_as w lu dest d.dest_port o)
    run_as-All dest none e h = (tt, tt)
    run_as-All dest (some iu) e h =
        if_accepted-All w.accept _ ((refl, (iu, e, refl, refl, refl), (dest, refl, h)), tt)

    run_proxy-All : (dest : Text) → IsDest dest → AllForwarded (run_proxy w lu dest d.dest_port)
    unfolding run_proxy
    run_proxy-All dest h =
        or_reject-All (w.instance_user lu.project lu.instance_name lu.instance_user) _ _
          (λ o e. run_as-All dest o e h)

    with_binary-All :
        (dest binary : Text) → IsDest dest → AllForwarded (with_binary w lu dest d.dest_port binary)
    with_binary-All dest binary h =
        elim (Bool-cases (w.file_exists lu.project lu.instance_name binary)) [
          | inl there ↦ rw there (run_proxy-All dest h)
          | inr missing ↦ rw missing (
            (refl, refl, refl),
            or_reject-All (w.upload lu.project lu.instance_name binary) _ _
                (λ u e. run_proxy-All dest h),
          )
        ]

    through_instance-All :
        (dest : Text) → IsDest dest → AllForwarded (through_instance w lu dest d.dest_port)
    unfolding through_instance
    through_instance-All dest h = or_reject-All w.connect _ _ (λ u e.
        or_reject-All (w.use_project lu.project) _ _ (λ u e.
          or_reject-All (w.architecture lu.project lu.instance_name) _ _ (λ arch e.
            or_reject-All (w.bin_bytes arch) _ _ (λ packed e.
              or_reject-All (w.ungz packed) _ _ (λ binary e. with_binary-All dest binary h)))))

    dial_instance-All :
        (dest : Text)
        → IsInstanceAddress resolved dest
        → AllForwarded (dial_instance w dest d.dest_port)
    unfolding dial_instance
    dial_instance-All dest h = (
      (dest, h, refl),
      or_reject-All (w.dial (join_host_port dest (itoa d.dest_port))) _ _
          (λ u e. if_accepted-All w.accept [] tt),
    )

    dest_of-IsDest :
        (address : Text) → IsInstanceAddress resolved address → IsDest (dest_of d address)
    dest_of-IsDest address h = elim (Bool-cases (is_empty d.dest_addr && not (is_empty address))) [
      | inl own ↦ rw own (inr h)
      | inr given ↦ rw given (inl refl)
    ]

    forward_to-All :
        (dest address : Text)
        → IsDest dest
        → IsInstanceAddress resolved address
        → AllForwarded (forward_to w lu dest d.dest_port address)
    unfolding forward_to
    forward_to-All dest address h own = elim (Bool-cases (text_eq dest address)) [
      | inl same ↦ rw same (dial_instance-All dest (rw (eq_of_text_eq dest address same) own))
      | inr other ↦ rw other (through_instance-All dest h)
    ]

    forward_resolved-All :
        (r : Result Text)
        → ((a : Text) → r ≡ ok a → IsInstanceAddress resolved a)
        → AllForwarded (forward_resolved w lu d r).0
    forward_resolved-All (err m) h = (tt, tt)
    forward_resolved-All (ok a) h =
        forward_to-All (dest_of d a) a (dest_of-IsDest a (h a refl)) (h a refl)

  first_address_ok :
      (said : Text) (addresses : List Text) (a : Text)
      → first_address said addresses ≡ ok a
      → (more : List Text) × (addresses ≡ a ∷ more)
  first_address_ok said [] a h =
      absurd (err-ne-ok (codes "cannot get instance IP address: " ++ said) a h)
  first_address_ok said (b ∷ more) a h = (more, ground arith)

  ethernet-IsAddressIn :
      (said : Text) (networks : Dict (List Text)) (a : Text)
      → first_address said (ethernet networks) ≡ ok a
      → IsAddressIn a networks
  unfolding ethernet
  ethernet-IsAddressIn said [] a h =
      err-ne-ok (codes "cannot get instance IP address: " ++ said) a h
  ethernet-IsAddressIn said ((d, addresses) ∷ networks) a h =
      elim (Bool-cases (starts_with_byte b'e' d)) [
        | inl first ↦
            let h' : first_address said addresses ≡ ok a = rw first at h in
            inl (first, first_address_ok said addresses a h')
        | inr other ↦
            let h' : first_address said (ethernet networks) ≡ ok a = rw other at h in
            inr (ethernet-IsAddressIn said networks a h')
      ]

  resolve_address-IsInstanceAddress :
      (resolved : Option Text) (a : Text)
      → resolve_address w lu resolved ≡ ok a
      → IsInstanceAddress resolved a
  unfolding resolve_address
  resolve_address-IsInstanceAddress (some b) a h = inl (ground arith)
  resolve_address-IsInstanceAddress none a h = inr (found w.connect h)
    where
      found :
          (r : Result (Unit {0}))
          → found_address w lu r ≡ ok a
          → IsAddressIn a (w.networks lu.project lu.instance_name)
      found (ok u) h =
          ethernet-IsAddressIn (w.networks_error lu.project lu.instance_name)
            (w.networks lu.project lu.instance_name) a h
      found (err m) h = cc

  -- Of the channels that clients open, the host connects only to an address of the instance of the
  -- login, on the requested port. Any other destination is reached from within the instance, by the
  -- proxy program under the id of the instance user; nothing is uploaded but that program.
  pub direct_tcpip-IsForwarded :
      (extra_data : Text) (resolved : Option Text) (d : LocalForwardChannelData)
      → w.unmarshal extra_data ≡ ok d
      → All (IsForwarded resolved d) (direct_tcpip_stdio_handler w lu extra_data resolved).0
  unfolding direct_tcpip_stdio_handler
  direct_tcpip-IsForwarded extra_data resolved d h = elim (Bool-cases w.is_valid) [
    | inl valid ↦
        rw (valid, h)
          (forward_resolved-All resolved d (resolve_address w lu resolved)
            (λ a e. resolve_address-IsInstanceAddress resolved a e))
    | inr invalid ↦ rw invalid (tt, tt)
  ]
