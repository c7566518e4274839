-- ===== src/LoginUser/Valid/Laws.antt =====
-- When a login is valid, and what the caches remember of it.
use ssh2incus.Base.{◌≡◌, ◌⊎◌, ◌↔◌, true, false, Option, arith}
use ssh2incus.Base.Result.{Result}
use ssh2incus.LoginUser.{Login, is_command}
use ssh2incus.LoginUser.Print.{hash}
use ssh2incus.LoginUser.Valid.{
  KeyCache, Caches, Client, is_user, is_ok, is_known_command, check_instance, check_login,
  InstanceUser,
}

module _ (k : KeyCache) (client : Client) (lu : Login) (c : Caches k) where
  open k use {has, has-set_default, has-delete}

  abbrev user_answer : Result (Option InstanceUser)
  user_answer = client.get_cached_instance_user lu.project lu.instance_name lu.instance_user

  -- A login is valid exactly if it is a known command, or if it is no command, has not failed of
  -- late, and either was valid of late, or Incus can be reached and it creates an instance or its
  -- user exists in the instance.
  pub check_login_iff : ((check_login k client lu c).0 ≡ true) ↔ (
      ((is_command lu ≡ true) × (is_known_command lu.command ≡ true))
      ⊎ ((is_command lu ≡ false)
          × (has (hash lu) c.failed ≡ false)
          × ((has (hash lu) c.valid ≡ true)
              ⊎ ((is_ok client.connect ≡ true)
                  × ((lu.create_instance ≡ true) ⊎ (is_user user_answer ≡ true))))))
  unfolding check_login check_instance
  check_login_iff = (λ h. ground arith, λ h. ground arith)

  -- The verdict on an instance login that Incus was asked about is remembered: asked again, with
  -- any answers of Incus, a valid login is valid and a failed one is not.
  pub check_login_again :
      (later : Client)
      → is_command lu ≡ false
      → lu.create_instance ≡ false
      → is_ok client.connect ≡ true
      → (check_login k later lu (check_login k client lu c).1).0 ≡ (check_login k client lu c).0
  unfolding check_login check_instance
  check_login_again later no_command no_create up = ground (
    arith,
    has-set_default (hash lu) c.valid,
    has-set_default (hash lu) c.failed,
    has-delete (hash lu) c.failed,
  )
