-- ===== src/Connect/Tests.antt =====
-- Configurations that the theorems on connections apply to.
use ssh2incus.Base.{◌≡◌, refl, true, some, []}
use ssh2incus.Base.Result.{ok}
use ssh2incus.Base.Text.{codes, cut_prefix}
use ssh2incus.Connect.{
  ConnectParams, CliConfig, Config, Environment, params_of, remote_files, choose_params, is_https,
}
use ssh2incus.Connect.Certificates.{IsUsable, choose_params-url}

abbrev cli : CliConfig
cli = record {
  remote_addr = λ r. some (codes "https://h:8443");
  client_cert_path = codes "/c/client.crt";
  client_key_path = codes "/c/client.key";
  server_cert_path = λ r. codes "/c/servercerts";
}

abbrev environment : Environment
environment = record { cli_config = some cli; file_exists = λ f. true; getenv = λ v. [] }

abbrev url_config : Config
url_config = record {
  remote = [];
  url = codes "https://h:8443";
  socket = [];
  server_cert = codes "/s.crt";
  client_cert = codes "/c.crt";
  client_key = codes "/c.key";
}

abbrev url_files : ConnectParams
url_files =
    params_of [] (codes "https://h:8443")
      (record { cert_file = codes "/c.crt"; key_file = codes "/c.key"; server_cert_file = [] })

chosen_url : choose_params environment url_config (some cli) ≡ ok url_files
unfolding choose_params cut_prefix
chosen_url = refl

choose_params-url_example :
    IsUsable url_files × (url_files.server_cert_file ≡ []) × (url_files.url ≡ url_config.url)
choose_params-url_example =
    choose_params-url environment url_config (some cli) url_files refl (λ e. cc) chosen_url

abbrev remote_config : Config
remote_config = record url_config { remote = codes "far" }

chosen_remote :
    choose_params environment remote_config (some cli)
    ≡ ok (params_of (codes "far") (codes "https://h:8443") (remote_files remote_config cli))
unfolding choose_params cut_prefix
chosen_remote = refl

https_addr : is_https (codes "https://h:8443") ≡ true
unfolding is_https cut_prefix
https_addr = refl
