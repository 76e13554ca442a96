-- ===== src/Agent/Resolve.antt =====
-- internal/agent/resolve.go: variables in the targets of services, and the address of this node that
-- fits a requester. The addresses of a network interface are an argument.
pub mod Template
pub mod Fuel
use mathlib.Core.Option
use tailscale_metrics_discov.Common.{
  ℕ, zero, suc, ◌≡◌, Bool, true, false, ◌&&◌, not, List, [], ◌∷◌, ◌++◌, Option, none, some, length,
  if◌then◌else◌, is_empty,
}
use tailscale_metrics_discov.Protocol.{ServiceEntry}
use tailscale_metrics_discov.Common.Text.{Text, text, ◌==◌, cut_at, cut_prefix}

-- The outcome of `interfaceIP` for an interface's name, and whether IPv6 is wanted.
abbrev pub Interfaces : Type 0
Interfaces = Text → Bool → Option Text

pub record ResolveContext : Type 0 where
  pub ts_ipv4 : Text
  pub ts_ipv6 : Text
  pub self_addr : Text

abbrev pub non_empty : Text → Option Text
non_empty s = if s == [] then none else some s

unfoldable pub resolve_var : Interfaces → ResolveContext → Text → Option Text
resolve_var interface_ip rc name =
    if name == text "ts.ip"
    then non_empty rc.ts_ipv4
    else if name == text "ts.ipv6"
    then non_empty rc.ts_ipv6
    else if name == text "self"
    then non_empty rc.self_addr
    else (elim (cut_prefix (text "if.link.ip:") name) [
      | some iface ↦ interface_ip iface false
      | none ↦ (elim (cut_prefix (text "if.link.ipv6:") name) [
        | some iface ↦ interface_ip iface true
        | none ↦ none
      ])
    ])

-- The loop of `resolveTarget` over what is left of the target. Each round takes up a closed pair of
-- braces at least, so that the length of the target is enough fuel.
unfoldable pub resolve_from : Interfaces → ResolveContext → ℕ → Text → Option Text
resolve_from interface_ip rc zero target = none
resolve_from interface_ip rc (suc fuel) target = elim (cut_at b'{' target) [
  | none ↦ some target
  | some (before, behind) ↦ (elim (cut_at b'}' behind) [
    | none ↦ some (before ++ b'{' ∷ behind)
    | some (name, left) ↦
        let rest = resolve_from interface_ip rc fuel left in
        elim (resolve_var interface_ip rc name) [
          | none ↦ none
          | some val ↦ Option.map (λ out. before ++ (val ++ out)) rest
        ]
  ])
]

unfoldable pub resolve_target : Interfaces → ResolveContext → Text → Option Text
resolve_target interface_ip rc target = resolve_from interface_ip rc (suc (length target)) target

-- Whether the requester's address parses as IPv6 is an argument.
unfoldable pub self_addr_for_request : Bool → Text → Text → Text → Text
self_addr_for_request is6 ts_ipv4 ts_ipv6 listen_port =
    let v6 = b'[' ∷ (ts_ipv6 ++ text "]:" ++ listen_port) in
    if is6 && not (ts_ipv6 == [])
    then v6
    else if not (ts_ipv4 == [])
    then ts_ipv4 ++ b':' ∷ listen_port
    else if not (ts_ipv6 == [])
    then v6
    else []

unfoldable pub resolve_targets : Interfaces → ResolveContext → List Text → List Text
resolve_targets interface_ip rc [] = []
resolve_targets interface_ip rc (t ∷ ts) =
    let rest = resolve_targets interface_ip rc ts in
    elim (resolve_target interface_ip rc t) [ none ↦ rest | some rt ↦ rt ∷ rest ]

-- `none` for an entry that is left out.
unfoldable pub resolve_entry : Interfaces → ResolveContext → ServiceEntry → Option ServiceEntry
resolve_entry interface_ip rc e =
    let targets = resolve_targets interface_ip rc e.target.targets in
    if is_empty targets
    then none
    else some (record e { target = record { targets = targets; labels = e.target.labels } })

unfoldable pub resolve_entries : Interfaces → ResolveContext → List ServiceEntry → List ServiceEntry
resolve_entries interface_ip rc [] = []
resolve_entries interface_ip rc (e ∷ es) =
    let rest = resolve_entries interface_ip rc es in
    elim (resolve_entry interface_ip rc e) [ none ↦ rest | some re ↦ re ∷ rest ]

-- The `{self}` address of a bucket's or proxy's entry for one request.
unfoldable pub context_of : Bool → Text → Text → Text → ResolveContext
context_of is6 ts_ipv4 ts_ipv6 listen_port = record {
  ts_ipv4 = ts_ipv4;
  ts_ipv6 = ts_ipv6;
  self_addr = self_addr_for_request is6 ts_ipv4 ts_ipv6 listen_port;
}
