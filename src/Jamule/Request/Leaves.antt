-- ===== src/Jamule/Request/Leaves.antt =====
-- Tags without subtags, and packets of the default flags, that have a form on the wire.
use amarr.Prelude.{ℕ, ◌<◌, ◌≡◌, refl, not, ◌&&◌, ◌==◌, true, Option, arith, length, elem}
use amarr.Py.Seq.{Text}
use amarr.Ec.TagName.{tag_names, ec_tag_unknown}
use amarr.Ec.OpCode.{op_codes}
use amarr.Ec.Tag.{Tags, Value, string, count}
use amarr.Ec.Tag.Values.RoundTrip.{IsValue}
use amarr.Ec.Tag.Wire.{value_bytes, contents_size, IsName, IsEncodable, AreEncodable}
use amarr.Ec.Packet.RoundTrip.{IsSendable}
use amarr.Jamule.Request.{leaf, request}
use amarr.Jamule.Request.Queries.{IsTagText}

-- Both parts of a name's condition as one test, which evaluates for a given name.
pub known-IsName : (n : ℕ) → (elem n tag_names && not (n == ec_tag_unknown)) ≡ true → IsName n
known-IsName n h = (ground arith, ground arith)

module _ (parse_float : Text → Option Text) where
  pub leaf-IsEncodable :
      (n : ℕ) (v : Value)
      → (elem n tag_names && not (n == ec_tag_unknown)) ≡ true
      → IsValue parse_float v
      → length (value_bytes v) < 0xD800
      → IsEncodable parse_float true (leaf n v)
  unfolding contents_size
  leaf-IsEncodable n v name valid small =
      (refl, known-IsName n name, valid, ground arith, refl, omega arith, tt)

  pub text-IsEncodable :
      (n : ℕ) (t : Text)
      → (elem n tag_names && not (n == ec_tag_unknown)) ≡ true
      → IsTagText 0 t
      → IsEncodable parse_float true (leaf n (string t))
  text-IsEncodable n t name (plain, small) = leaf-IsEncodable n (string t) name plain (omega arith)

  -- A packet with the default flags is sendable when its tags are, and are not too many.
  pub request-IsSendable :
      (op_code : ℕ) (tags : Tags)
      → elem op_code op_codes ≡ true
      → AreEncodable parse_float true tags
      → count tags < 0xD800
      → IsSendable parse_float (request op_code tags)
  request-IsSendable op_code tags known encodable few = record {
    known_op_code = known;
    encodable = encodable;
    count_fits = ground arith;
    count_small = omega arith;
  }
