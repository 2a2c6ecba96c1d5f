-- ===== src/Nodes/Rules.antt =====
-- What `validateNode` of internal/service/node.go demands of a node. The regular expression of a short
-- id is written out; the decoders of the JSON columns are parameters.
use Prim.Native.Char.{code}
use vgate_manager.Prelude.{
  ℕ, suc, String, Bool, true, false, not, ◌&&◌, ◌||◌, Option, none, some, ◌==◌, leb, ltb_ℤ, leb_ℤ,
  if◌then◌else◌,
}
use vgate_manager.Prelude.Int.{ℤ, pos}
use vgate_manager.Prelude.Float.{Float64}
use vgate_manager.Model.Node.{Node}

-- The decoders of JSON columns: the `server_name` of a Reality config and the `decryption` of a VLESS
-- config, where the text is one; and the normalisation of a short id, `ToLower(TrimSpace(...))`.
pub record Decoders : Type 0 where
  pub server_name : String → Option String
  pub decryption : String → Option String
  pub normalize_sid : String → String

-- A character of a lowercase hexadecimal number.
abbrev pub is_hex : ℕ → Bool
is_hex c = (leb b'0' c && leb c b'9') || (leb b'a' c && leb c b'f')

unfoldable pub all_hex : String → Bool
all_hex String.[] = true
all_hex (String.◌∷◌ c s) = is_hex (code c) && all_hex s

unfoldable pub text_length : String → ℕ
text_length String.[] = 0
text_length (String.◌∷◌ c s) = suc (text_length s)

-- `realitySIDPattern`: 1 to 16 lowercase hexadecimal digits
unfoldable pub is_sid : String → Bool
is_sid s = leb 1 (text_length s) && leb (text_length s) 16 && all_hex s

abbrev pub is_some : {A : Type 0} → Option A → Bool
is_some none = false
is_some (some _) = true

module _ (f : Float64) where
  abbrev pub is_virtual : Node f → Bool
  is_virtual n = is_some n.parent_id

  abbrev pub is_zero : f.Num → Bool
  is_zero x = not (f.lt x (f.of_int (pos 0))) && not (f.lt (f.of_int (pos 0)) x)

  module _ (c : Decoders) where
    abbrev pub has_flow : Node f → Bool
    has_flow n = elim n.flow [ none ↦ false | some t ↦ not (t == "") ]

    abbrev pub is_one_of : String → String → String → String → String → Bool
    is_one_of s a b d e = s == a || s == b || s == d || s == e

    -- `10 * 1024 * 1024 * 1024`
    abbrev pub speed_ok : ℤ → Bool
    speed_ok n = leb_ℤ (pos 0) n && leb_ℤ n (pos 10737418240)

    -- `TrafficMultiplier != 0 && (TrafficMultiplier < 0.01 || TrafficMultiplier > 1000)`
    unfoldable pub multiplier_ok : f.Num → Bool
    multiplier_ok x =
        is_zero x
        || (not (f.lt x (f.div (f.of_int (pos 1)) (f.of_int (pos 100))))
            && not (f.lt (f.of_int (pos 1000)) x))

    abbrev pub reality_ok : Node f → Bool
    reality_ok n =
        if n.security == "reality"
        then (elim n.reality_config [
          | none ↦ true
          | some j ↦ elim (c.server_name j) [ none ↦ false | some s ↦ not (s == "") ]
        ])
        else true

    abbrev pub vless_ok : Node f → Bool
    vless_ok n = elim n.vless [
      | none ↦ true
      | some j ↦ if j == "" then true else elim (c.decryption j) [
        | none ↦ false
        | some t ↦
            not (not (t == "") && (elim n.flow [ none ↦ false | some w ↦ w == "xtls-rprx-vision" ]))
      ]
    ]

    unfoldable pub valid_real : Node f → Bool
    valid_real n =
        (n.reality_sid == "" || n.security == "reality")
        && is_one_of n.network "" "tcp" "ws" "xhttp"
        && ltb_ℤ (pos 0) n.port
        && is_one_of n.security "none" "tls" "reality" "reality"
        && not (n.security == "none" && has_flow n)
        && not (has_flow n && not (n.network == "tcp") && not (n.network == ""))
        && reality_ok n
        && vless_ok n
        && speed_ok n.speed_limit_up_bps
        && speed_ok n.speed_limit_down_bps

    -- The tests of `validateNode`, on the node with its short id normalised.
    unfoldable pub valid_node : Node f → Bool
    valid_node n =
        (n.reality_sid == "" || is_sid n.reality_sid)
        && multiplier_ok n.traffic_multiplier
        && (if is_virtual n then not (n.name == "") && not (n.address == "") else valid_real n)

    abbrev pub normalized : Node f → Node f
    normalized n = record n { reality_sid = c.normalize_sid n.reality_sid }
