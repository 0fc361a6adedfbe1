-- ===== src/Cli.antt =====
-- cli.py: the check of an inventory and what `apply` reads of it, the run of a playbook, and the
-- installation of the local service. YAML values are JSON values; `invalid` is the ValueError that the
-- commands report, `failed` another exception.
pub mod Inventory
pub mod Install
pub mod Installed
use re_remote_dev.Json.{
  Fields, Items, Json, arr, cons, end, field, get_field, nil, num, obj, py_int, str, truthy,
  truthy_or,
}
use re_remote_dev.Prelude.{
  Bool, List, Option, String, [], false, get_or, if◌then◌else◌, none, not, some, suc, zero, ℕ, ◌++◌,
  ◌∷◌,
}
use re_remote_dev.Prelude.Int.{pos, ℤ}
use re_remote_dev.Prelude.Text.{◌<>◌}
use re_remote_dev.Result.{Result, err, failed, invalid, ok, ◌>>=◌}

-- data.get(k, {})
abbrev pub or_empty : Option Json → Json
or_empty none = obj end
or_empty (some v) = v

-- v.get, or v[...], or v.items() of what may be no mapping
unfoldable pub as_mapping : Json → Result Fields
as_mapping (obj fields) = ok fields
as_mapping v = err (failed "AttributeError")

-- v.get(k, {}) of what may be no mapping, as a mapping that is read further
unfoldable pub sub_mapping : String → Fields → Result Fields
unfolding as_mapping
sub_mapping k fields = as_mapping (or_empty (get_field k fields))

-- remote.get(key)
abbrev pub is_set : String → Fields → Bool
is_set key fields = truthy_or false (get_field key fields)

-- The loop over the hosts.
unfoldable pub check_hosts : Fields → Result (Unit {0})
check_hosts end = ok tt
check_hosts (field name (obj host) rest) =
    let others = check_hosts rest in
    if is_set "ansible_host" host
    then others
    else err (invalid ("主机 " <> name <> " 缺少 ansible_host"))
check_hosts (field name v rest) = err (invalid ("主机 " <> name <> " 缺少 ansible_host"))

-- groups.get("hosts", {}) if isinstance(groups, dict) else {}
unfoldable pub hosts_of : Json → Json
hosts_of (obj groups) = or_empty (get_field "hosts" groups)
hosts_of v = obj end

unfoldable pub check_targets : Json → Result (Unit {0})
unfolding as_mapping check_hosts
check_targets hosts =
    if not (truthy hosts)
    then err (invalid "未配置 remote_dev_targets 主机")
    else as_mapping hosts >>= check_hosts

unfoldable pub check_remote : Option Json → Result Fields
check_remote (some (obj remote)) =
    if not (is_set "schema_version" remote)
    then err (invalid "缺少 remote_dev.schema_version")
    else if not (is_set "target_user" remote)
    then err (invalid "缺少 remote_dev.target_user")
    else if not (is_set "ssh_private_key_file" remote)
    then err (invalid "缺少 remote_dev.ssh_private_key_file")
    else ok remote
check_remote v = err (invalid "缺少 all.vars.remote_dev")

-- _validate(path), over the mapping that `_load_inventory` gives
unfoldable pub validate : Fields → Result (Unit {0})
unfolding sub_mapping check_remote check_targets hosts_of
validate data' = sub_mapping "all" data' >>= λ all'. sub_mapping "vars" all' >>= λ vars.
    check_remote (get_field "remote_dev" vars) >>= λ remote.
    sub_mapping "children" all' >>= λ children.
    check_targets (hosts_of (or_empty (get_field "remote_dev_targets" children)))

-- fields[k]
unfoldable pub required_field : String → Fields → Result Json
required_field k fields = elim (get_field k fields) [
  | none ↦ err (failed "KeyError")
  | some v ↦ ok v
]

unfoldable pub required_mapping : String → Fields → Result Fields
unfolding required_field as_mapping
required_mapping k fields = required_field k fields >>= as_mapping

-- next(iter(hosts.items())), whose value is read as a mapping
unfoldable pub first_host : Fields → Result (String × Fields)
unfolding as_mapping
first_host end = err (failed "StopIteration")
first_host (field name v rest) = as_mapping v >>= λ host. ok (name, host)

-- The proxy settings of an inventory, as `apply` passes them to ProxySettings.
pub record ProxyInputs : Type 0 where
  pub mode : Json
  pub host : Json
  pub port : ℤ
  pub remote_port_min : ℤ
  pub remote_port_max : ℤ

-- What `apply` takes of an inventory: the host's name, user, address and key, and the proxy settings.
pub record Inputs : Type 0 where
  pub name : String
  pub user : Json
  pub address : Json
  pub proxy : ProxyInputs
  pub key : Json

-- host.get(k, default)
abbrev pub get_or_default : String → Json → Fields → Json
get_or_default k default fields = get_or (get_field k fields) default

-- int(v)
unfoldable pub int_from : Json → Result ℤ
int_from v = elim (py_int v) [ none ↦ err (invalid "int") | some n ↦ ok n ]

-- xs[k]
unfoldable pub item : ℕ → Items → Result Json
item k nil = err (failed "IndexError")
item zero (cons v rest) = ok v
item (suc k) (cons v rest) = item k rest

unfoldable pub char_at : ℕ → String → Result Json
char_at k String.[] = err (failed "IndexError")
char_at zero (String.◌∷◌ c s) = ok (str (String.◌∷◌ c String.[]))
char_at (suc k) (String.◌∷◌ c s) = char_at k s

-- v[k] of a value that should be a list
unfoldable pub element : ℕ → Json → Result Json
unfolding item char_at
element k (arr xs) = item k xs
element k (str s) = char_at k s
element k (obj fields) = err (failed "KeyError")
element k v = err (failed "TypeError")

-- The values of `settings` in `apply`.
unfoldable pub proxy_inputs : Fields → Result ProxyInputs
unfolding sub_mapping element int_from
proxy_inputs remote = sub_mapping "proxy" remote >>= λ proxy.
    int_from (get_or_default "port" (num (pos 4227)) proxy) >>= λ port.
    let range =
      get_or_default "remote_port_range" (arr (cons (num (pos 40000)) (cons (num (pos 60000)) nil)))
        proxy in
    element 0 range >>= λ first. int_from first >>= λ lowest. element 1 range >>= λ second.
    int_from second >>= λ highest. ok (record {
      mode = get_or_default "mode" (str "auto") proxy;
      host = get_or_default "host" (str "127.0.0.1") proxy;
      port = port;
      remote_port_min = lowest;
      remote_port_max = highest;
    })

-- The lookups at the head of `apply`.
unfoldable pub apply_inputs : Fields → Result Inputs
unfolding required_mapping first_host proxy_inputs
apply_inputs data' = required_mapping "all" data' >>= λ all'.
    required_mapping "children" all' >>= λ children.
    required_mapping "remote_dev_targets" children >>= λ targets.
    required_mapping "hosts" targets >>= λ hosts. first_host hosts >>= λ named.
    required_mapping "vars" all' >>= λ vars. required_mapping "remote_dev" vars >>= λ remote.
    required_field "target_user" remote >>= λ target_user.
    required_field "ansible_host" named.1 >>= λ address. proxy_inputs remote >>= λ proxy.
    required_field "ssh_private_key_file" remote >>= λ key. ok (record {
      name = named.0;
      user = get_or_default "ansible_user" target_user named.1;
      address = address;
      proxy = proxy;
      key = get_or_default "ansible_ssh_private_key_file" key named.1;
    })

-- `-e key=value` for each extra variable
unfoldable pub extra_args : List (String × String) → List String
extra_args [] = []
extra_args ((key, value) ∷ rest) = "-e" ∷ (key <> "=" <> value) ∷ extra_args rest

-- The command of `_run(playbook, inventory, ...)`.
unfoldable pub run_command : String → String → Bool → Bool → List (String × String) → List String
unfolding extra_args
run_command playbook inventory ask_become ask_pass extra_vars =
    "ansible-playbook"
    ∷ "-i"
    ∷ inventory
    ∷ playbook
    ∷ ((if ask_become then "--ask-become-pass" ∷ [] else [])
        ++ ((if ask_pass then "--ask-pass" ∷ [] else []) ++ extra_args extra_vars))
