-- ===== src/Connect.antt =====
-- server/incus.go, getIncusConnectParams: where the server finds Incus. The configuration of the Incus
-- command line, the environment and the existence of files are parameters.
pub mod Certificates
pub mod Tests
use ssh2incus.Base.{Bool, not, ◌&&◌, ◌||◌, Option, none, some, [], if◌then◌else◌}
use ssh2incus.Base.Result.{Result, ok, err}
use ssh2incus.Base.Text.{Text, codes, is_empty, has_prefix, trim_prefix}

-- pkg/incus/incus.go
pub record ConnectParams : Type 0 where
  pub remote : Text
  pub url : Text
  pub cert_file : Text
  pub key_file : Text
  pub server_cert_file : Text
  pub ca_cert_file : Text

-- cliconfig.Config: the address of a remote, the paths of client.crt and client.key, and the path of a
-- remote's server certificate.
pub record CliConfig : Type 0 where
  pub remote_addr : Text → Option Text
  pub client_cert_path : Text
  pub client_key_path : Text
  pub server_cert_path : Text → Text

pub record Config : Type 0 where
  pub remote : Text
  pub url : Text
  pub socket : Text
  pub server_cert : Text
  pub client_cert : Text
  pub client_key : Text

pub record Environment : Type 0 where
  pub cli_config : Option CliConfig
  pub file_exists : Text → Bool
  pub getenv : Text → Text

-- The variables of the function.
pub record Files : Type 0 where
  pub cert_file : Text
  pub key_file : Text
  pub server_cert_file : Text

abbrev pub no_files : Files
no_files = record { cert_file = []; key_file = []; server_cert_file = [] }

abbrev pub has_client : Config → Bool
has_client c = not (is_empty c.client_cert) && not (is_empty c.client_key)

unfoldable pub is_https : Text → Bool
unfolding has_prefix
is_https url = has_prefix (codes "https://") url

abbrev pub params_of : Text → Text → Files → ConnectParams
params_of remote url f = record {
  remote = remote;
  url = url;
  cert_file = f.cert_file;
  key_file = f.key_file;
  server_cert_file = f.server_cert_file;
  ca_cert_file = [];
}

abbrev pub remote_files : Config → CliConfig → Files
remote_files c cli = record {
  cert_file = if has_client c then c.client_cert else cli.client_cert_path;
  key_file = if has_client c then c.client_key else cli.client_key_path;
  server_cert_file =
      if is_empty c.server_cert then cli.server_cert_path c.remote else c.server_cert;
}

abbrev pub check_files : Environment → Text → Text → Files → Result ConnectParams
check_files e remote url f =
    if not (e.file_exists f.cert_file)
    then err (codes "client certificate not found")
    else if not (e.file_exists f.key_file)
    then err (codes "client key not found")
    else ok (params_of remote url f)

unfoldable pub remote_params : Environment → Config → CliConfig → Option Text → Result ConnectParams
unfolding is_https trim_prefix
remote_params e c cli none = err (codes "remote not found in incus configuration")
remote_params e c cli (some addr) =
    if is_https addr
    then check_files e c.remote addr (remote_files c cli)
    else ok (params_of c.remote (trim_prefix (codes "unix://") addr) no_files)

-- The first assignment to certFile, that of the server's certificate, is always overwritten.
abbrev pub url_files : Environment → Config → Files
url_files e c = record {
  cert_file = if has_client c then c.client_cert else e.getenv (codes "INCUS_CLIENT_CERT");
  key_file = if has_client c then c.client_key else e.getenv (codes "INCUS_CLIENT_KEY");
  server_cert_file = [];
}

abbrev pub check_named : Text → Files → Result ConnectParams
check_named url f =
    if is_empty f.cert_file || is_empty f.key_file
    then err (codes "HTTPS connection requires client certificate and key")
    else ok (params_of [] url f)

unfoldable pub url_params : Environment → Config → Result ConnectParams
unfolding is_https
url_params e c =
    if is_https c.url then check_named c.url (url_files e c) else ok (params_of [] c.url no_files)

abbrev pub local_params : Environment → Config → Result ConnectParams
local_params e c =
    if not (is_empty c.url)
    then url_params e c
    else if not (is_empty c.socket)
    then ok (params_of [] c.socket no_files)
    else ok (params_of [] [] no_files)

unfoldable pub choose_params : Environment → Config → Option CliConfig → Result ConnectParams
unfolding remote_params url_params
choose_params e c none = local_params e c
choose_params e c (some cli) =
    if is_empty c.remote then local_params e c else remote_params e c cli (cli.remote_addr c.remote)

-- The variable incusConnectParams keeps the first success.
abbrev pub keep : Result ConnectParams → Result ConnectParams × Option ConnectParams
keep (ok p) = (ok p, some p)
keep (err m) = (err m, none)

unfoldable pub get_incus_connect_params :
    Environment → Config → Option ConnectParams → Result ConnectParams × Option ConnectParams
unfolding choose_params
get_incus_connect_params e c (some p) = (ok p, some p)
get_incus_connect_params e c none = keep (choose_params e c e.cli_config)
