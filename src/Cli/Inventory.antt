-- ===== src/Cli/Inventory.antt =====
-- What `apply` may read of an inventory that `_validate` has passed.
use re_remote_dev.Cli.{
  Inputs, ProxyInputs, apply_inputs, as_mapping, check_hosts, check_remote, check_targets,
  first_host, get_or_default, hosts_of, is_set, or_empty, proxy_inputs, required_field,
  required_mapping, sub_mapping, validate,
}
use re_remote_dev.Json.{
  Fields, Json, arr, bool, cons, end, field, get_field, nil, null, num, obj, str, truthy,
}
use re_remote_dev.Prelude.{
  Bool-cases, Option, Option-cases, String, ap, false, inl, inr, none, refl, some, subst, true, ◌∙◌,
  ◌≡◌, ◌⊎◌,
}
use re_remote_dev.Prelude.Text.{◌<>◌}
use re_remote_dev.Result.{>>=-eq-ok, Result, err, failed, invalid, ok, ◌>>=◌}

-- A mapping read with a default is there if something in it is.
sub_mapping-there :
    (k j : String) (fields sub : Fields) (v : Json)
    → sub_mapping k fields ≡ ok sub
    → get_field j sub ≡ some v
    → get_field k fields ≡ some (obj sub)
unfolding sub_mapping as_mapping
sub_mapping-there k j fields sub v e there = go (get_field k fields) e
  where
    go : (o : Option Json) → as_mapping (or_empty o) ≡ ok sub → o ≡ some (obj sub)
    go none q =
        let empty : end ≡ sub = cc in
        let lacking : get_field j sub ≡ none =
          subst (λ f. get_field j f ≡ none) empty (unfold get_field in refl) in
        cc
    go (some (obj f)) q = cc
    go (some null) q = cc
    go (some (bool b)) q = cc
    go (some (num n)) q = cc
    go (some (str s)) q = cc
    go (some (arr xs)) q = cc

required_mapping-there :
    (k : String) (fields sub : Fields)
    → get_field k fields ≡ some (obj sub)
    → required_mapping k fields ≡ ok sub
unfolding required_mapping required_field as_mapping
required_mapping-there k fields sub e = rw (e, required_field) refl

set-required :
    (k : String) (fields : Fields)
    → is_set k fields ≡ true
    → (v : Json) × (required_field k fields ≡ ok v)
unfolding required_field
set-required k fields h = elim (Option-cases (get_field k fields)) [
  | inl e ↦ let none_set : false ≡ true = rw e at h in cc
  | inr (v, e) ↦ (v, rw (e, required_field) refl)
]

check_remote-sets :
    (o : Option Json) (remote : Fields)
    → check_remote o ≡ ok remote
    → (o ≡ some (obj remote))
      × (is_set "target_user" remote ≡ true)
      × (is_set "ssh_private_key_file" remote ≡ true)
unfolding check_remote
check_remote-sets none remote e = cc
check_remote-sets (some null) remote e = cc
check_remote-sets (some (bool b)) remote e = cc
check_remote-sets (some (num n)) remote e = cc
check_remote-sets (some (str s)) remote e = cc
check_remote-sets (some (arr xs)) remote e = cc
check_remote-sets (some (obj f)) remote e =
    go (Bool-cases (is_set "schema_version" f)) (Bool-cases (is_set "target_user" f))
      (Bool-cases (is_set "ssh_private_key_file" f))
  where
    go :
        ((is_set "schema_version" f ≡ true) ⊎ (is_set "schema_version" f ≡ false))
        → ((is_set "target_user" f ≡ true) ⊎ (is_set "target_user" f ≡ false))
        → ((is_set "ssh_private_key_file" f ≡ true) ⊎ (is_set "ssh_private_key_file" f ≡ false))
        → (some (obj f) ≡ some (obj remote))
          × (is_set "target_user" remote ≡ true)
          × (is_set "ssh_private_key_file" remote ≡ true)
    go (inl a) (inl b) (inl c) =
        let same_fields : ok f ≡ ok remote = rw (a, b, c) at e in
        let here : f ≡ remote = cc in
        (
          cc,
          subst (λ g. is_set "target_user" g ≡ true) here b,
          subst (λ g. is_set "ssh_private_key_file" g ≡ true) here c,
        )
    go (inr a) b c =
        let no : err (invalid "缺少 remote_dev.schema_version") ≡ ok remote = rw a at e in cc
    go (inl a) (inr b) c =
        let no : err (invalid "缺少 remote_dev.target_user") ≡ ok remote = rw (a, b) at e in cc
    go (inl a) (inl b) (inr c) =
        let no : err (invalid "缺少 remote_dev.ssh_private_key_file") ≡ ok remote =
          rw (a, b, c) at e in
        cc

-- The first host of a table that passed has an address.
check_hosts-first :
    (hosts : Fields)
    → truthy (obj hosts) ≡ true
    → check_hosts hosts ≡ ok tt
    → (name : String) × (host : Fields) × (first_host hosts ≡ ok (name, host))
      × (is_set "ansible_host" host ≡ true)
unfolding check_hosts first_host as_mapping
check_hosts-first end t e = cc
check_hosts-first (field name null rest) t e = cc
check_hosts-first (field name (bool b) rest) t e = cc
check_hosts-first (field name (num n) rest) t e = cc
check_hosts-first (field name (str s) rest) t e = cc
check_hosts-first (field name (arr xs) rest) t e = cc
check_hosts-first (field name (obj host) rest) t e =
    elim (Bool-cases (is_set "ansible_host" host)) [
      | inl h ↦ (name, host, refl, h)
      | inr h ↦
          let no : err (invalid ("主机 " <> name <> " 缺少 ansible_host")) ≡ ok tt = rw h at e in cc
    ]

-- A table of hosts that is not empty, and passes.
record Passes (hosts : Fields) : Type 0 where
  some_host : truthy (obj hosts) ≡ true
  checked : check_hosts hosts ≡ ok tt

check_targets-mapping :
    (v : Json) → check_targets v ≡ ok tt → (hosts : Fields) × (v ≡ obj hosts) × Passes hosts
unfolding check_targets as_mapping
check_targets-mapping null e = cc
check_targets-mapping (bool true) e = cc
check_targets-mapping (bool false) e = cc
check_targets-mapping (num n) e = elim (Bool-cases (truthy (num n))) [
  | inl h ↦ let no : err (failed "AttributeError") ≡ ok tt = rw h at e in cc
  | inr h ↦ let no : err (invalid "未配置 remote_dev_targets 主机") ≡ ok tt = rw h at e in cc
]
check_targets-mapping (str t) e = elim (Bool-cases (truthy (str t))) [
  | inl h ↦ let no : err (failed "AttributeError") ≡ ok tt = rw h at e in cc
  | inr h ↦ let no : err (invalid "未配置 remote_dev_targets 主机") ≡ ok tt = rw h at e in cc
]
check_targets-mapping (arr nil) e = cc
check_targets-mapping (arr (cons x xs)) e = cc
check_targets-mapping (obj end) e = cc
check_targets-mapping (obj (field k v rest)) e =
    (field k v rest, refl, record { some_host = refl; checked = e })

no_hosts : (hosts : Fields) → obj end ≡ obj hosts → Passes hosts → ⊥
no_hosts end e h = let no : false ≡ true = h.some_host in cc
no_hosts (field k v rest) e h = cc

hosts_of-there :
    (o : Option Json) (hosts : Fields)
    → hosts_of (or_empty o) ≡ obj hosts
    → Passes hosts
    → (targets : Fields) × (o ≡ some (obj targets)) × (get_field "hosts" targets ≡ some (obj hosts))
unfolding hosts_of
hosts_of-there none hosts e h = absurd (no_hosts hosts (unfold get_field in e) h)
hosts_of-there (some null) hosts e h = absurd (no_hosts hosts e h)
hosts_of-there (some (bool b)) hosts e h = absurd (no_hosts hosts e h)
hosts_of-there (some (num n)) hosts e h = absurd (no_hosts hosts e h)
hosts_of-there (some (str t)) hosts e h = absurd (no_hosts hosts e h)
hosts_of-there (some (arr xs)) hosts e h = absurd (no_hosts hosts e h)
hosts_of-there (some (obj targets)) hosts e h = elim (Option-cases (get_field "hosts" targets)) [
  | inl lacking ↦
      let nothing : obj end ≡ obj hosts = rw lacking at e in absurd (no_hosts hosts nothing h)
  | inr (v, there) ↦
      let same_value : v ≡ obj hosts = rw there at e in (targets, refl, there ∙ ap some same_value)
]

-- data["all"]["vars"]["remote_dev"]
abbrev pub remote_of : Fields → Result Fields
remote_of inventory = required_mapping "all" inventory >>= λ all'.
    required_mapping "vars" all' >>= required_mapping "remote_dev"

-- A reading ends as the reading of the proxy settings does, and gives these settings.
abbrev pub Reads : Result ProxyInputs → Result Inputs → Type 0
Reads (ok p) r = (i : Inputs) × (r ≡ ok i) × (i.proxy ≡ p)
Reads (err e) r = r ≡ err e

then-Reads :
    (made : Result ProxyInputs) (inputs : ProxyInputs → Inputs)
    → ((p : ProxyInputs) → (inputs p).proxy ≡ p)
    → Reads made (made >>= λ p. ok (inputs p))
then-Reads (ok p) inputs h = (inputs p, refl, h p)
then-Reads (err e) inputs h = refl

-- An inventory that `_validate` passes has everything that `apply` reads at its head but for the proxy
-- settings: it has a table of settings, and the reading returns or raises just as the reading of the
-- proxy settings in that table does.
pub validate-apply_inputs :
    (inventory : Fields)
    → validate inventory ≡ ok tt
    → (remote : Fields) × (remote_of inventory ≡ ok remote)
      × Reads (proxy_inputs remote) (apply_inputs inventory)
unfolding validate apply_inputs
validate-apply_inputs inventory e =
    let (all', e_all, e1) = >>=-eq-ok (sub_mapping "all" inventory) _ tt e in
    let (vars, e_vars, e2) = >>=-eq-ok (sub_mapping "vars" all') _ tt e1 in
    let (remote, e_remote, e3) = >>=-eq-ok (check_remote (get_field "remote_dev" vars)) _ tt e2 in
    let (children, e_children, e4) = >>=-eq-ok (sub_mapping "children" all') _ tt e3 in
    let (hosts, is_hosts, passes) =
      check_targets-mapping (hosts_of (or_empty (get_field "remote_dev_targets" children))) e4 in
    let (targets, is_targets, has_hosts) =
      hosts_of-there (get_field "remote_dev_targets" children) hosts is_hosts passes in
    let (name, host, is_first, has_address) =
      check_hosts-first hosts passes.some_host passes.checked in
    let (is_remote, has_user, has_key) =
      check_remote-sets (get_field "remote_dev" vars) remote e_remote in
    let vars_there =
      sub_mapping-there "vars" "remote_dev" all' vars (obj remote) e_vars is_remote in
    let all_there = sub_mapping-there "all" "vars" inventory all' (obj vars) e_all vars_there in
    let children_there =
      sub_mapping-there "children" "remote_dev_targets" all' children (obj targets) e_children
        is_targets in
    let (target_user, user_there) = set-required "target_user" remote has_user in
    let (address, address_there) = set-required "ansible_host" host has_address in
    let (key, key_there) = set-required "ssh_private_key_file" remote has_key in
    let inputs : ProxyInputs → Inputs = λ p. record {
      name = name;
      user = get_or_default "ansible_user" target_user host;
      address = address;
      proxy = p;
      key = get_or_default "ansible_ssh_private_key_file" key host;
    } in
    (
      remote,
      rw
          (
            required_mapping-there "all" inventory all' all_there,
            required_mapping-there "vars" all' vars vars_there,
            required_mapping-there "remote_dev" vars remote is_remote,
          )
          refl,
      rw
          (
            required_mapping-there "all" inventory all' all_there,
            required_mapping-there "children" all' children children_there,
            required_mapping-there "remote_dev_targets" children targets is_targets,
            required_mapping-there "hosts" targets hosts has_hosts,
            is_first,
            required_mapping-there "vars" all' vars vars_there,
            required_mapping-there "remote_dev" vars remote is_remote,
            user_there,
            address_there,
            key_there,
          )
          (then-Reads (proxy_inputs remote) inputs (λ p. refl)),
    )
