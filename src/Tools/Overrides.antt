-- ===== src/Tools/Overrides.antt =====
-- crates/kiliax-core/src/mcp_overrides.rs: the MCP servers that a session turns on or off. The rest
-- of the configuration, which it does not touch, is left out.
use kiliax.Prelude.{
  ◌≡◌, refl, ap, ◌∙◌, Bool, List, [], ◌∷◌, map, Option, none, some, if◌then◌else◌, any, arith,
  Bool-cases, Option-cases, ap₂, inl, inr,
}
use kiliax.Text.{Text, text_eq}
use kiliax.Session.State.{SessionMcpServerSetting}

pub record McpServerConfig : Type 0 where
  pub name : Text
  pub enable : Bool
  pub command : Text
  pub args : List Text

pub data Overridden : Type 0 where
  ok : List McpServerConfig → Overridden
  unknown_mcp_server : Text → Overridden

unfoldable pub session_mcp_servers_from_config : List McpServerConfig → List SessionMcpServerSetting
session_mcp_servers_from_config =
    map (λ server. record { id = server.name; enable = server.enable })

-- The map `enabled_by_id`: an insertion stands before the older ones.
abbrev pub Enabled : Type 0
Enabled = List (Text × Bool)

unfoldable pub lookup : Text → Enabled → Option Bool
lookup id [] = none
lookup id ((k, enable) ∷ entries) =
    let rest = lookup id entries in if text_eq k id then some enable else rest

-- The loop over the overrides: the map, or the id that is not known.
pub data Collected : Type 0 where
  all_known : Enabled → Collected
  unknown : Text → Collected

collect : List Text → Enabled → List SessionMcpServerSetting → Collected
collect known enabled_by_id [] = Collected.all_known enabled_by_id
collect known enabled_by_id (o ∷ overrides) =
    let rest = collect known ((o.id, o.enable) ∷ enabled_by_id) overrides in
    if any (λ k. text_eq k o.id) known then rest else Collected.unknown o.id

unfoldable pub set_enable : Enabled → McpServerConfig → McpServerConfig
set_enable enabled_by_id server = elim (lookup server.name enabled_by_id) [
  | none ↦ server
  | some enable ↦ record server { enable = enable }
]

unfoldable pub apply_mcp_enable_overrides :
    List McpServerConfig → List SessionMcpServerSetting → Overridden
unfolding collect
apply_mcp_enable_overrides servers overrides =
    elim (collect (map (λ s. s.name) servers) [] overrides) [
      | Collected.all_known enabled_by_id ↦ Overridden.ok (map (set_enable enabled_by_id) servers)
      | Collected.unknown id ↦ Overridden.unknown_mcp_server id
    ]

unfoldable pub config_with_session_mcp_overrides :
    List McpServerConfig → List SessionMcpServerSetting → Overridden
config_with_session_mcp_overrides base overrides = apply_mcp_enable_overrides base overrides

-- What the last override of `id` says, and `enable` where there is none.
abbrev pub last_override : Text → List SessionMcpServerSetting → Bool → Bool
last_override id [] enable = enable
last_override id (o ∷ overrides) enable =
    last_override id overrides (if text_eq o.id id then o.enable else enable)

-- The first id of an override that no server has.
abbrev pub first_unknown : List Text → List SessionMcpServerSetting → Option Text
first_unknown known [] = none
first_unknown known (o ∷ overrides) =
    if any (λ k. text_eq k o.id) known then first_unknown known overrides else some o.id

abbrev pub with_enable : McpServerConfig → Bool → McpServerConfig
with_enable s e = record s { enable = e }

abbrev pub overridden : Option Text → List McpServerConfig → Overridden
overridden none servers = Overridden.ok servers
overridden (some id) servers = Overridden.unknown_mcp_server id

inserted : Enabled → List SessionMcpServerSetting → Enabled
inserted entries [] = entries
inserted entries (o ∷ overrides) = inserted ((o.id, o.enable) ∷ entries) overrides

collected : Option Text → Enabled → Collected
collected none entries = Collected.all_known entries
collected (some id) entries = Collected.unknown id

collect-collected :
    (known : List Text) (entries : Enabled) (os : List SessionMcpServerSetting)
    → collect known entries os ≡ collected (first_unknown known os) (inserted entries os)
unfolding collect collected inserted
collect-collected known entries [] = refl
collect-collected known entries (o ∷ os) = elim (Bool-cases (any (λ k. text_eq k o.id) known)) [
  | inl e ↦ rw e (collect-collected known ((o.id, o.enable) ∷ entries) os)
  | inr e ↦ rw e refl
]

-- What the map says of `id`, and `enable` where it says nothing.
effective : Text → Enabled → Bool → Bool
effective id entries enable = elim (lookup id entries) [ none ↦ enable | some e ↦ e ]

effective-insert :
    (id k : Text) (e : Bool) (entries : Enabled) (enable : Bool)
    → effective id ((k, e) ∷ entries) enable
      ≡ (if text_eq k id then e else effective id entries enable)
unfolding effective lookup
effective-insert id k e entries enable = ground arith

effective-inserted :
    (id : Text) (entries : Enabled) (os : List SessionMcpServerSetting) (enable : Bool)
    → effective id (inserted entries os) enable ≡ last_override id os (effective id entries enable)
unfolding inserted
effective-inserted id entries [] enable = refl
effective-inserted id entries (o ∷ os) enable =
    effective-inserted id ((o.id, o.enable) ∷ entries) os enable
    ∙ ap (last_override id os) (effective-insert id o.id o.enable entries enable)

set_enable-effective :
    (entries : Enabled) (s : McpServerConfig)
    → set_enable entries s ≡ with_enable s (effective s.name entries s.enable)
unfolding set_enable effective
set_enable-effective entries s = elim (Option-cases (lookup s.name entries)) [
  | inl e ↦ rw (set_enable, effective, e) refl
  | inr (b, e) ↦ rw (set_enable, effective, e) refl
]

set_enable-inserted :
    (os : List SessionMcpServerSetting) (servers : List McpServerConfig)
    → map (set_enable (inserted [] os)) servers
      ≡ map (λ s. with_enable s (last_override s.name os s.enable)) servers
unfolding effective lookup
set_enable-inserted os [] = refl
set_enable-inserted os (s ∷ servers) =
    ap₂ (◌∷◌)
      (set_enable-effective (inserted [] os) s
        ∙ ap (with_enable s) (effective-inserted s.name [] os s.enable))
      (set_enable-inserted os servers)

-- Where every override names a server, each server is enabled as its last override says, or as
-- before where it has none, and nothing else of it changes; otherwise the result is the error with
-- the first override's id that no server has.
pub apply_mcp_enable_overrides-last :
    (servers : List McpServerConfig) (os : List SessionMcpServerSetting)
    → apply_mcp_enable_overrides servers os
      ≡ overridden
          (first_unknown (map (λ s. s.name) servers) os)
          (map (λ s. with_enable s (last_override s.name os s.enable)) servers)
unfolding apply_mcp_enable_overrides collected
apply_mcp_enable_overrides-last servers os =
    elim (Option-cases (first_unknown (map (λ s. s.name) servers) os)) [
      | inl e ↦
          rw (apply_mcp_enable_overrides, collect-collected (map (λ s. s.name) servers) [] os, e)
            (ap Overridden.ok (set_enable-inserted os servers))
      | inr (id, e) ↦
          rw (apply_mcp_enable_overrides, collect-collected (map (λ s. s.name) servers) [] os, e)
            refl
    ]
