-- ===== src/LoginUser/Tests.antt =====
-- Login strings of server/user_test.go, runs of the printer, and logins that the theorems apply to.
use ssh2incus.Base.{
  ◌≡◌, ◌≢◌, refl, ◌⊎◌, inl, inr, Bool, true, false, none, some, [], ◌∷◌, if◌then◌else◌, arith,
}
use ssh2incus.Base.Int.{pos}
use ssh2incus.Base.Result.{ok}
use ssh2incus.Base.Text.{
  Text, codes, text_eq, starts_with_byte, has_prefix, trim_prefix, cut, split, contains_byte,
  replace_all, atoi,
}
use ssh2incus.Base.Text.Decimal.{itoa}
use ssh2incus.Base.Text.Laws.{text_eq_refl}
use ssh2incus.LoginUser.{zero_login, no_config, login_user, nil, pointer, Login, LoginUser}
use ssh2incus.LoginUser.Parse.{Host, parse_from}
use ssh2incus.LoginUser.Print.{show}
use ssh2incus.LoginUser.Session.{IsSession, session_of, parse_from-show}
use ssh2incus.LoginUser.Total.{parse_from-total}
use ssh2incus.LoginUser.Shape.{IsCommandLogin, IsInstanceLogin, parse_from-shape}
use ssh2incus.LoginUser.Creation.RoundTrip.{IsCreation, created_of, parse_from-show_creation}
use ssh2incus.LoginUser.Valid.{KeyCache, Caches, Client, InstanceUser}

abbrev root_host : Host
root_host = record { uid = 0; lookup_id = λ id. none }

abbrev test_fns : Unit {0}
unfolding parse_from show itoa cut replace_all split text_eq has_prefix trim_prefix contains_byte
    atoi
test_fns = tt

parse_session :
    parse_from 1 root_host (codes "%remote:iuser@instance.project+user") zero_login
    ≡ some (
        login_user
          (record zero_login {
            orig_user = codes "%remote:iuser@instance.project+user";
            remote = codes "remote";
            user = codes "user";
            instance_name = codes "instance";
            project = codes "project";
            instance_user = codes "iuser";
            persistent = true;
          })
          nil
          nil)
unfolding test_fns
parse_session = refl

parse_creation :
    parse_from 1 root_host (codes "+test+ubuntu/24.04+m4+c2+nest~ann") zero_login
    ≡ some (
        login_user
          (record zero_login {
            orig_user = codes "+test+ubuntu/24.04+m4+c2+nest~ann";
            user = codes "ann";
            instance_name = codes "test";
            project = codes "default";
            instance_user = codes "root";
            create_instance = true;
            create_config = record no_config {
              image = some (codes "ubuntu/24.04");
              memory = some (pos 4);
              cpu = some (pos 2);
              nesting = some true;
            };
          })
          nil
          nil)
unfolding test_fns
parse_creation = refl

-- ann:bob@web.team/x~carl, with the remote ann
abbrev far_login : Login
far_login = record zero_login {
  remote = codes "ann";
  user = codes "carl";
  instance_user = codes "bob";
  instance_name = codes "web";
  project = codes "team/x";
}

far_login-IsSession : IsSession far_login
far_login-IsSession = record {
  no_command = refl;
  no_create = refl;
  remote = omega arith;
  instance_user = omega arith;
  instance_name = omega arith;
  project = omega arith;
  has_project = λ e. cc;
}

parse_from-show_example :
    parse_from 4 root_host (show (login_user far_login nil nil)) zero_login
    ≡ some (login_user (session_of far_login (show (login_user far_login nil nil))) nil nil)
parse_from-show_example = parse_from-show 3 root_host far_login far_login-IsSession (inl refl)

parse_from-total_example :
    (parse_from 9 root_host (codes "/explain") zero_login
      ≡ parse_from 20 root_host (codes "/explain") zero_login)
    × (parse_from 9 root_host (codes "/explain") zero_login ≢ none)
parse_from-total_example =
    parse_from-total 9 20 root_host (codes "/explain") zero_login (omega arith) (omega arith)

abbrev parsed_session : LoginUser
parsed_session = login_user (session_of far_login (show (login_user far_login nil nil))) nil nil

abbrev removed_target : Login
removed_target = record zero_login {
  orig_user = codes "web";
  user = codes "root";
  instance_name = codes "web";
  project = codes "default";
  instance_user = codes "root";
}

abbrev removed : LoginUser
removed =
    login_user
      (record zero_login {
        orig_user = codes "/rm-f/web";
        user = codes "root";
        command = codes "remove";
        force_remove = true;
      })
      nil (pointer (login_user removed_target nil nil))

removed-parsed : parse_from 2 root_host (codes "/rm-f/web") zero_login ≡ some removed
unfolding parse_from cut text_eq replace_all
removed-parsed = refl

parse_from-shape_example :
    ((cmd : Text) × (codes "/rm-f/web" ≡ b'/' ∷ cmd) × IsCommandLogin cmd removed)
    ⊎ ((starts_with_byte b'/' (codes "/rm-f/web") ≡ false) × IsInstanceLogin removed)
parse_from-shape_example = parse_from-shape 2 root_host (codes "/rm-f/web") removed removed-parsed

-- ~web.team with an image, two sizes and a flag
abbrev new_login : Login
new_login = record zero_login {
  create_instance = true;
  remote = codes "ann";
  instance_name = codes "web";
  project = codes "team";
  create_config = record no_config {
    image = some (codes "ubuntu/24.04");
    memory = some (pos 4);
    cpu = some (pos 2);
    ephemeral = some true;
    nesting = some true;
    profiles = codes "small" ∷ [];
  };
}

new_login-IsCreation : IsCreation new_login
unfolding contains_byte
new_login-IsCreation = record {
  create_instance = refl;
  remote = omega arith;
  instance_name = omega arith;
  project = omega arith;
  has_project = λ e. cc;
  config = record {
    image = (refl, refl, omega arith, omega arith);
    memory = omega arith;
    cpu = omega arith;
    disk = tt;
    nesting = inr refl;
    privileged = inl refl;
    vm = inl refl;
    profiles = (omega arith, tt);
  };
  ephemeral = inr refl;
}

parse_from-show_creation_example :
    parse_from 1 root_host (show (login_user new_login nil nil)) zero_login
    ≡ some (login_user (created_of new_login new_login-IsCreation root_host) nil nil)
parse_from-show_creation_example =
    parse_from-show_creation 0 root_host new_login new_login-IsCreation

-- A cache that never forgets.
abbrev pub set_cache : KeyCache
set_cache = record {
  Cache = Text → Bool;
  has = λ k c. c k;
  set_default = λ k c j. if text_eq k j then true else c j;
  delete = λ k c j. if text_eq k j then false else c j;
  has-set_default = λ k c. rw (text_eq_refl k);
  has-delete = λ k c. rw (text_eq_refl k);
}

abbrev pub empty_caches : Caches set_cache
empty_caches = record { valid = λ k. false; failed = λ k. false }

abbrev pub bob : InstanceUser
bob = record {
  project = codes "team";
  instance_name = codes "web";
  user = codes "bob";
  uid = 1000;
  gid = 1000;
  dir = codes "/home/bob";
  shell = codes "/bin/bash";
  ent = [];
}

abbrev pub bob_client : Client
bob_client = record { connect = ok tt; get_cached_instance_user = λ p i u. ok (some bob) }

abbrev pub bob_login : Login
bob_login = record zero_login {
  user = codes "carl";
  instance_name = codes "web";
  project = codes "team";
  instance_user = codes "bob";
}
