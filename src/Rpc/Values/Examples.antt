-- ===== src/Rpc/Values/Examples.antt =====
-- Libraries that stand in for base64, torch, numpy and JSON, and a value that is sent through them.
use Prim.Native.String.{[] as no_text, ◌∷◌ as text_then}
use Prim.Native.Char.{code}
use action_stream.Prelude.{
  ℕ, ◌+◌, ◌==◌, ◌∙◌, zero, suc, pos, String, ◌≡◌, refl, List, [], ◌∷◌, str_eq, if◌then◌else◌,
  eq_iff, length, ◌≤◌, arith, Result, ok, err,
}
use action_stream.Rpc.Values.{
  WireError, type_error, value_error, null, int, Value, tensor, bytes, mapping, tuple, scalar,
  generic, no_values, value_then, no_items, item_then, text_key, Wire, atom, object, no_fields,
  field_then, Libraries, encode_value, decode_value,
}
use action_stream.Rpc.Values.RoundTrip.{Sendable, plain, decode_value-encode_value}

-- a number as as many letters, and a mark after it
count_text : ℕ → String → String
count_text zero s = text_then "e" s
count_text (suc n) s = text_then "b" (count_text n s)

text64 : List ℕ → String
unfolding count_text
text64 [] = ""
text64 (n ∷ ns) = count_text n (text64 ns)

-- the numbers of a text, the first with what was counted before
bytes_from : ℕ → String → List ℕ
bytes_from n no_text = []
bytes_from n (text_then c s) =
    let ends = n ∷ bytes_from 0 s in
    let counts = bytes_from (suc n) s in if code c == 101 then ends else counts

bytes_from-count_text :
    (n m : ℕ) (s : String) → bytes_from n (count_text m s) ≡ (n + m) ∷ bytes_from 0 s
unfolding bytes_from count_text
bytes_from-count_text n zero s = let same : n + 0 ≡ n = omega arith in rw same refl
bytes_from-count_text n (suc m) s =
    let same : suc n + m ≡ n + suc m = omega arith in
    bytes_from-count_text (suc n) m s ∙ rw same refl

bytes_from-text64 : (ns : List ℕ) → bytes_from 0 (text64 ns) ≡ ns
unfolding bytes_from text64
bytes_from-text64 [] = refl
bytes_from-text64 (n ∷ ns) =
    bytes_from-count_text 0 n (text64 ns)
    ∙ (let same : 0 + n ≡ n = omega arith in rw same (rw (bytes_from-text64 ns) refl))

-- a text of JSON for objects whose one key is `n`, and its number
number_wire : ℕ → Wire
number_wire n = object (field_then "n" (atom (int (pos n))) no_fields)

write_number : Wire → Result WireError (List ℕ)
write_number (object (field_then key (atom (int (pos n))) no_fields)) =
    if str_eq key "n" then ok (n ∷ []) else err value_error
write_number wire = err value_error

read_number : List ℕ → Result WireError Wire
unfolding number_wire
read_number (n ∷ []) = ok (number_wire n)
read_number body = err value_error

written :
    (key : String) (n : ℕ) (body : List ℕ)
    → write_number (object (field_then key (atom (int (pos n))) no_fields)) ≡ ok body
    → (body ≡ n ∷ []) × (key ≡ "n")
unfolding write_number
written key n body h = ground (arith, eq_iff key "n")

write_number-read :
    (wire : Wire) (body : List ℕ) → write_number wire ≡ ok body → read_number body ≡ ok wire
unfolding write_number read_number number_wire
write_number-read (object (field_then key (atom (int (pos n))) no_fields)) body h =
    let (one, same) = written key n body h in rw one (rw same refl)
write_number-read wire body h = ground arith

write_number-full : (wire : Wire) (body : List ℕ) → write_number wire ≡ ok body → 1 ≤ length body
unfolding write_number
write_number-full wire body h = ground arith

unfoldable pub libraries : Libraries (List ℕ) (List ℕ)
unfolding bytes_from text64 write_number read_number
libraries = record {
  encode64 = text64;
  decode64 = λ s. ok (bytes_from 0 s);
  int_of = λ s. err type_error;
  tensor_dtype = λ t. "torch.uint8";
  tensor_shape = λ t. length t ∷ [];
  tensor_bytes = λ t. t;
  make_tensor = λ dtype raw shape. ok raw;
  array_dtype = λ a. "|u1";
  array_shape = λ a. length a ∷ [];
  array_bytes = λ a. a;
  make_array = λ dtype raw shape. ok raw;
  dumps = write_number;
  loads = read_number;
}

pub libraries_base64 : (raw : List ℕ) → libraries.decode64 (libraries.encode64 raw) ≡ ok raw
unfolding libraries
libraries_base64 raw = rw (bytes_from-text64 raw) refl

pub libraries_json :
    (wire : Wire) (body : List ℕ) → libraries.dumps wire ≡ ok body → libraries.loads body ≡ ok wire
unfolding libraries
libraries_json wire body h = write_number-read wire body h

pub libraries_full :
    (wire : Wire) (body : List ℕ) → libraries.dumps wire ≡ ok body → 1 ≤ length body
unfolding libraries
libraries_full wire body h = write_number-full wire body h

-- a mapping with a tensor, a tuple and bytes
abbrev observation : Value (List ℕ) (List ℕ)
observation = mapping (
    item_then (text_key "image") (tensor (1 ∷ 2 ∷ [])) (
      item_then (text_key "pair")
        (tuple (value_then (generic (int (pos 3))) (value_then (scalar null) no_values)))
        (item_then (text_key "raw") (bytes (7 ∷ 0 ∷ [])) no_items)))

decode_value-encode_value_example :
    (wire : Wire) × (encode_value libraries observation ≡ ok wire)
    × (decode_value libraries wire ≡ ok (plain observation))
unfolding Sendable libraries
decode_value-encode_value_example =
    decode_value-encode_value libraries libraries_base64 observation
      (refl, (tt, (refl, refl), (tt, (tt, (tt, tt)), (tt, tt, tt))))
