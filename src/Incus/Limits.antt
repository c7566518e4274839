-- ===== src/Incus/Limits.antt =====
-- The configuration that a new instance gets.
use ssh2incus.Base.{◌≡◌, Bool, not, ◌&&◌, ◌||◌, some, ◌++◌, if◌then◌else◌, arith}
use ssh2incus.Base.Int.{positive}
use ssh2incus.Base.Text.{Text, codes, text_eq}
use ssh2incus.Base.Text.Numbers.{show_int}
use ssh2incus.Base.Dict.{Dict, lookup, insert, lookup-insert}
use ssh2incus.Shell.Create.{CreateInstanceParams}
use ssh2incus.Incus.{security_config, memory_config, cpu_config, create_config}

-- The keys that are set for containers alone.
abbrev pub is_security_key : CreateInstanceParams → Text → Bool
is_security_key p k =
    not p.vm
    && ((p.privileged && text_eq (codes "security.privileged") k)
        || (p.nesting
            && (text_eq (codes "security.nesting") k
                || (text_eq (codes "security.syscalls.intercept.mknod") k
                    || text_eq (codes "security.syscalls.intercept.setxattr") k))))

module _ (p : CreateInstanceParams) (k : Text) where
  lookup-security_config :
      (m : Dict Text)
      → lookup k (security_config p m)
        ≡ (if is_security_key p k then some (codes "true") else lookup k m)
  unfolding security_config
  lookup-security_config m =
      let privileged =
        if p.privileged then insert (codes "security.privileged") (codes "true") m else m in
      let nested = insert (codes "security.nesting") (codes "true") privileged in
      let mknod = insert (codes "security.syscalls.intercept.mknod") (codes "true") nested in
      ground (
        arith,
        lookup-insert (codes "security.privileged") k (codes "true") m,
        lookup-insert (codes "security.nesting") k (codes "true") privileged,
        lookup-insert (codes "security.syscalls.intercept.mknod") k (codes "true") nested,
        lookup-insert (codes "security.syscalls.intercept.setxattr") k (codes "true") mknod,
      )

  lookup-memory_config :
      (m : Dict Text)
      → lookup k (memory_config p m) ≡ (
          if positive p.memory && text_eq (codes "limits.memory") k
          then some (show_int p.memory ++ codes "GiB")
          else lookup k m)
  unfolding memory_config
  lookup-memory_config m =
      ground (arith, lookup-insert (codes "limits.memory") k (show_int p.memory ++ codes "GiB") m)

  -- Of a new instance: limits.cpu and limits.memory are the sizes of the parameters, the memory in GiB,
  -- where these are positive; privileged and nested containers get their security keys, and virtual
  -- machines get none; every other key is the one of the configuration given.
  pub lookup-create_config : lookup k (create_config p) ≡ (
      if positive p.cpu && text_eq (codes "limits.cpu") k
      then some (show_int p.cpu)
      else if positive p.memory && text_eq (codes "limits.memory") k
      then some (show_int p.memory ++ codes "GiB")
      else if is_security_key p k
      then some (codes "true")
      else lookup k p.config)
  unfolding create_config cpu_config
  lookup-create_config = ground (
    arith,
    lookup-insert (codes "limits.cpu") k (show_int p.cpu)
        (memory_config p (security_config p p.config)),
    lookup-memory_config (security_config p p.config),
    lookup-security_config p.config,
  )
