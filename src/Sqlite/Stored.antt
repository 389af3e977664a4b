-- ===== src/Sqlite/Stored.antt =====
-- A node that is stored is read back.
use vpp_wl_mobile.Prelude.{
  Bool, eq_iff, Bool-cases, arith, ◌&&◌, [], ◌==◌, inr, not, ◌∷◌, inl, if◌then◌else◌, String,
  Option-cases, List, ℕ, ◌≡◌, refl, subst, false, Option, none, some, is_empty,
}
use vpp_wl_mobile.Prelude.Dict
use vpp_wl_mobile.Errors.{Result, ok, raised, integrity_error, overflow_error}
use vpp_wl_mobile.Json.{str, object, entries-fields}
use vpp_wl_mobile.Models.{
  VpnNode, NodeOptions, Protocol, NodeStatus, NodeHealth, parse_protocol, parse_status,
  parse_health, protocol_value, status_value, health_value,
}
use vpp_wl_mobile.Sqlite.{Library, Database, NodeRow}
use vpp_wl_mobile.Sqlite.Options.{
  options_payload, options_to_json, options_from_json, options_from_value, options_from, Payload,
  vless_payload, wireguard_payload, shadowsocks_from, hysteria2_from,
}
use vpp_wl_mobile.Sqlite.Options.RoundTrip.{vless_from_lem, wireguard_from_lem}
use vpp_wl_mobile.Sqlite.Rows.{
  member, node_row, node_from_row, node_if_found, optional_dt, dt_from_text,
}
use vpp_wl_mobile.Sqlite.Tables.{optional, are_bound}
use vpp_wl_mobile.Sqlite.Nodes.{row_integers, find_node, tag_taken, put_node, upsert_node, get_node}

-- The options are those of the protocol, or there are none.
abbrev pub Fits : Protocol → NodeOptions → Type 0
Fits protocol NodeOptions.empty = Unit
Fits protocol (NodeOptions.vless o) = protocol ≡ Protocol.vless
Fits protocol (NodeOptions.shadowsocks o) = protocol ≡ Protocol.shadowsocks
Fits protocol (NodeOptions.wireguard o) = protocol ≡ Protocol.wireguard
Fits protocol (NodeOptions.hysteria2 o) = protocol ≡ Protocol.hysteria2

-- A node whose options fit it, and of whose texts the libraries read what they wrote: no text is
-- empty, `fromisoformat` undoes `isoformat`, and `loads` undoes `dumps`.
pub record IsStorable (lib : Library) (node : VpnNode) : Type 0 where
  pub fits : Fits node.protocol node.options
  pub dated :
      (t : ℕ)
      → node.last_check_at ≡ some t
      → (is_empty (lib.to_text t) ≡ false) × (lib.from_text (lib.to_text t) ≡ some t)
  pub dumped :
      (p : Payload)
      → options_payload node.options ≡ some p
      → (is_empty (lib.dumps (object p)) ≡ false)
        × (lib.loads (lib.dumps (object p)) ≡ some (object p))

protocol_lem : (p : Protocol) → member (parse_protocol (protocol_value p)) ≡ ok p
unfolding parse_protocol protocol_value
protocol_lem Protocol.vless = refl
protocol_lem Protocol.shadowsocks = refl
protocol_lem Protocol.wireguard = refl
protocol_lem Protocol.hysteria2 = refl

status_lem : (s : NodeStatus) → member (parse_status (status_value s)) ≡ ok s
unfolding parse_status status_value
status_lem NodeStatus.active = refl
status_lem NodeStatus.draining = refl
status_lem NodeStatus.disabled = refl

health_lem : (h : NodeHealth) → member (parse_health (health_value h)) ≡ ok h
unfolding parse_health health_value
health_lem NodeHealth.healthy = refl
health_lem NodeHealth.degraded = refl
health_lem NodeHealth.disabled = refl

optional_dt_lem :
    (lib : Library) (o : Option ℕ)
    → ((t : ℕ)
        → o ≡ some t
        → (is_empty (lib.to_text t) ≡ false) × (lib.from_text (lib.to_text t) ≡ some t))
    → optional_dt lib (optional lib.to_text o) ≡ ok o
unfolding optional_dt dt_from_text
optional_dt_lem lib none h = refl
optional_dt_lem lib (some t) h = rw (h t refl).0 (rw (h t refl).1 refl)

-- The options that a payload holds, for the protocol that they fit.
options_from_lem :
    (protocol : Protocol) (options : NodeOptions) (p : Payload)
    → Fits protocol options
    → options_payload options ≡ some p
    → options_from protocol p ≡ ok options
unfolding options_from options_payload shadowsocks_from hysteria2_from
    vpp_wl_mobile.Prelude.Dict.get
options_from_lem protocol NodeOptions.empty p f h = absurd (cc)
options_from_lem protocol (NodeOptions.vless o) p f h =
    let same : vless_payload o ≡ p = cc in
    subst (λ q. options_from protocol q ≡ ok (NodeOptions.vless o)) same
      (rw f (rw (vless_from_lem o) refl))
options_from_lem protocol (NodeOptions.shadowsocks o) p f h =
    let same : (("method", str o.method) ∷ ("password", str o.password) ∷ []) ≡ p = cc in
    subst (λ q. options_from protocol q ≡ ok (NodeOptions.shadowsocks o)) same (rw f refl)
options_from_lem protocol (NodeOptions.wireguard o) p f h =
    let same : wireguard_payload o ≡ p = cc in
    subst (λ q. options_from protocol q ≡ ok (NodeOptions.wireguard o)) same
      (rw f (rw (wireguard_from_lem o) refl))
options_from_lem protocol (NodeOptions.hysteria2 o) p f h =
    let same : (("password", str o.password) ∷ ("server_name", str o.server_name) ∷ []) ≡ p = cc in
    subst (λ q. options_from protocol q ≡ ok (NodeOptions.hysteria2 o)) same (rw f refl)

no_options : (o : NodeOptions) → options_payload o ≡ none → ok NodeOptions.empty ≡ ok o
unfolding options_payload
no_options NodeOptions.empty h = refl
no_options (NodeOptions.vless o) h = absurd (cc)
no_options (NodeOptions.shadowsocks o) h = absurd (cc)
no_options (NodeOptions.wireguard o) h = absurd (cc)
no_options (NodeOptions.hysteria2 o) h = absurd (cc)

module _ (lib : Library) where
  options_from_json_lem :
      (node : VpnNode)
      → IsStorable lib node
      → options_from_json lib node.protocol (options_to_json lib node.options) ≡ ok node.options
  unfolding options_to_json options_from_json options_from_value
  options_from_json_lem node v = elim (Option-cases (options_payload node.options)) [
    | inl e ↦ rw (e, options_to_json, options_from_json) (no_options node.options e)
    | inr (p, e) ↦
        let d = v.dumped p e in
        rw (e, options_to_json, options_from_json)
          (rw d.0 (
            rw (d.1, options_from_value)
              (rw (entries-fields p) (options_from_lem node.protocol node.options p v.fits e))))
  ]

  node_from_row-node_row :
      (node : VpnNode) → IsStorable lib node → node_from_row lib (node_row lib node) ≡ ok node
  unfolding node_from_row node_row
  node_from_row-node_row node v = rw (protocol_lem node.protocol) (
      rw (status_lem node.status) (
        rw (optional_dt_lem lib node.last_check_at v.dated)
          (rw (health_lem node.health) (rw (options_from_json_lem node v) refl))))

  find_node-put_node :
      (row : NodeRow) (rows : List NodeRow) (id : String)
      → find_node id (put_node row rows) ≡ (if row.id == id then some row else find_node id rows)
  unfolding find_node put_node
  find_node-put_node row [] id = refl
  find_node-put_node row (r ∷ rows) id =
      ground (
        arith,
        eq_iff r.id row.id,
        eq_iff row.id id,
        eq_iff r.id id,
        find_node-put_node row rows id,
      )

  read_put :
      (node : VpnNode) (db : Database) (id : String)
      → IsStorable lib node
      → node_if_found lib (find_node id (put_node (node_row lib node) db.nodes))
        ≡ (if node.id == id then ok (some node) else node_if_found lib (find_node id db.nodes))
  unfolding node_if_found node_row
  read_put node db id v =
      rw (find_node-put_node (node_row lib node) db.nodes id) (elim (Bool-cases (node.id == id)) [
        | inl e ↦ rw e (rw (node_from_row-node_row node v) refl)
        | inr e ↦ rw e refl
      ])

  -- What becomes of a node that is to be stored: an integer of more than 64 bits is refused, and a tag
  -- that another node has.
  abbrev pub stored_result : VpnNode → Database → Result (Unit {0})
  stored_result node db =
      if not (are_bound (row_integers (node_row lib node)))
      then raised overflow_error
      else if tag_taken (node_row lib node) db.nodes
      then raised integrity_error
      else ok tt

  abbrev pub is_stored : VpnNode → Database → Bool
  is_stored node db =
      are_bound (row_integers (node_row lib node)) && not (tag_taken (node_row lib node) db.nodes)

  -- Storing a node is refused with OverflowError where one of its integers has more than 64 bits, and
  -- with IntegrityError where another node has its tag, and then every node is read as before. Any
  -- other node is stored and read back as it was, and every other node as before, provided that its
  -- options are those of its protocol and that the libraries read what they wrote.
  pub upsert_node-get_node :
      (node : VpnNode) (db : Database) (id : String)
      → IsStorable lib node
      → ((upsert_node lib node db).0 ≡ stored_result node db)
        × ((get_node lib id (upsert_node lib node db).1).0 ≡ (
            if is_stored node db && (node.id == id)
            then ok (some node)
            else (get_node lib id db).0))
  unfolding upsert_node get_node
  upsert_node-get_node node db id v =
      let row = node_row lib node in
      elim (Bool-cases (are_bound (row_integers row))) [
        | inl b ↦ elim (Bool-cases (tag_taken row db.nodes)) [
          | inl e ↦ (rw (b, e, upsert_node) refl, rw (b, e, upsert_node) refl)
          | inr e ↦ (rw (b, e, upsert_node) refl, rw (b, e, upsert_node) (read_put node db id v))
        ]
        | inr b ↦ (rw (b, upsert_node) refl, rw (b, upsert_node) refl)
      ]
