-- ===== src/Columns.antt =====
-- internal/models/client.go: a list of texts in a JSON column, StringSlice.
use Prim.Native.String.{◌++◌ as concat}
use iam_service.Prelude.{String, List, ◌≡◌, refl, ap}
use iam_service.Errors.{new, foreign}
use iam_service.Effect.{Reply, done, failed, Result, ok, err, from_reply, ok_injective}
use iam_service.Platform.{Bytes}

-- What a driver hands to Scan: []byte, string, or a value of another type, by the type's name.
pub data Source : Type 0 where
  bytes : Bytes → Source
  text : String → Source
  other : (type_name : String) → Source

-- json.Marshal and json.Unmarshal at []string, and Go's conversions between string and []byte.
pub record Json : Type 0 where
  pub marshal : List String → Reply Bytes
  pub unmarshal : Bytes → Reply (List String)
  pub to_string : Bytes → String
  pub to_bytes : String → Bytes

pub record IsJson (j : Json) : Type 0 where
  pub unmarshal-marshal :
      (s : List String) (b : Bytes) → j.marshal s ≡ done b → j.unmarshal b ≡ done s
  -- what Marshal writes is valid UTF-8
  pub to_bytes-to_string :
      (s : List String) (b : Bytes) → j.marshal s ≡ done b → j.to_bytes (j.to_string b) ≡ b

module _ (j : Json) where
  abbrev written : Reply Bytes → Result String
  written (done b) = ok (j.to_string b)
  written (failed e) = err (foreign e)

  unfoldable pub value : List String → Result String
  value s = written (j.marshal s)

  unfoldable pub scan : Source → Result (List String)
  scan (bytes v) = from_reply (j.unmarshal v)
  scan (text v) = from_reply (j.unmarshal (j.to_bytes v))
  scan (other type_name) = err (new (concat "StringSlice: unsupported source type " type_name))

  module _ (law : IsJson j) where
    written-inv :
        (s : List String) (t : String) (reply : Reply Bytes)
        → j.marshal s ≡ reply
        → written reply ≡ ok t
        → j.unmarshal (j.to_bytes t) ≡ done s
    written-inv s t (done b) e h =
        let same : j.to_string b ≡ t = ok_injective h in
        rw (← same, law.to_bytes-to_string s b e) (law.unmarshal-marshal s b e)
    written-inv s t (failed f) e h = absurd (cc)

    -- What Value wrote, Scan reads back, whether the driver hands it over as a string or as bytes,
    -- if encoding/json reads back what it writes.
    pub scan-value :
        (s : List String) (t : String)
        → value s ≡ ok t
        → (scan (text t) ≡ ok s) × (scan (bytes (j.to_bytes t)) ≡ ok s)
    unfolding value scan
    scan-value s t h = let back = ap (λ r. from_reply r) (written-inv s t _ refl h) in (back, back)
