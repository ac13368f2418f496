-- ===== src/Rpc/Values/RoundTrip.antt =====
-- rpc_protocol.py: what `_decode_value` makes of an encoded value.
use action_stream.Prelude.{
  ℕ, pos, String, ◌≡◌, refl, ◌∙◌, inl, inr, Bool-cases, Bool, true, false, not, ◌||◌, none, some,
  List, [], ◌∷◌, map, str_eq, if◌then◌else◌, ok, arith,
}
use action_stream.Rpc.Values.{
  Scalar, bool, str, check_dtype, decode_bytes, as_tuple, Key, text_key, other_key, Value, tensor,
  ndarray, bytes, mapping, tuple, list, scalar, generic, unsupported, Values, no_values, value_then,
  Items, no_items, item_then, Wire, atom, array, object, Wires, no_wires, wire_then, Fields,
  no_fields, field_then, Libraries, tensor_tag, ndarray_tag, bytes_tag, tuple_tag, is_torch_dtype,
  get_wire, is_true, wires_of, tagged, encode_value, encode_values, encode_items, decode_value,
  decode_values, decode_fields, decode_tuple, ints_of, shape_of, data_of, text_of, decode_tensor,
  decode_array, decode_object,
}

abbrev is_key : Key → String → Bool
is_key (text_key name) key = str_eq name key
is_key other_key key = false

abbrev IsTextKey : Key → Type 0
IsTextKey (text_key name) = Unit {0}
IsTextKey other_key = ⊥

module _ {T N : Type 0} where
  -- the value as its receiver has it: a scalar of numpy's arrives as a scalar of Python's
  unfoldable mutual
    pub plain : Value T N → Value T N
    plain (mapping items) = mapping (plain_items items)
    plain (tuple children) = tuple (plain_values children)
    plain (list children) = list (plain_values children)
    plain (generic s) = scalar s
    plain value = value

    pub plain_values : Values T N → Values T N
    plain_values no_values = no_values
    plain_values (value_then value children) = value_then (plain value) (plain_values children)

    pub plain_items : Items T N → Items T N
    plain_items no_items = no_items
    plain_items (item_then key value items) = item_then key (plain value) (plain_items items)

  abbrev is_true_value : Value T N → Bool
  is_true_value (scalar (bool b)) = b
  is_true_value (generic (bool b)) = b
  is_true_value value = false

  -- the mapping has this key, and its value is `True`
  abbrev pub has_true : String → Items T N → Bool
  has_true key no_items = false
  has_true key (item_then name value items) =
      let later = has_true key items in if is_key name key then is_true_value value else later

  abbrev pub has_key : String → Items T N → Bool
  has_key key no_items = false
  has_key key (item_then name value items) = is_key name key || has_key key items

  -- no key of the mapping makes it an encoded tensor, array, bytes or tuple
  abbrev pub is_untagged : Items T N → Bool
  is_untagged items = not (
      has_true tensor_tag items
      || has_true ndarray_tag items
      || has_true bytes_tag items
      || has_key tuple_tag items)

module _ {T N : Type 0} (L : Libraries T N) where
  -- torch rebuilds the tensor from its bytes, as it does when there are some
  abbrev pub RestoresTensor : T → Type 0
  RestoresTensor t =
      (is_torch_dtype (L.tensor_dtype t) ≡ true)
      × (L.make_tensor (L.tensor_dtype t) (L.tensor_bytes t) (map pos (L.tensor_shape t)) ≡ ok t)

  abbrev pub RestoresArray : N → Type 0
  RestoresArray a =
      L.make_array (L.array_dtype a) (L.array_bytes a) (map pos (L.array_shape a)) ≡ ok a

  -- The value can be sent: all of it is of supported types, mappings have texts as keys and no key of
  -- theirs is a tag, and its tensors and arrays can be rebuilt.
  unfoldable mutual
    pub Sendable : Value T N → Type 0
    Sendable (tensor t) = RestoresTensor t
    Sendable (ndarray a) = RestoresArray a
    Sendable (mapping items) = (is_untagged items ≡ true) × SendableItems items
    Sendable (tuple children) = SendableValues children
    Sendable (list children) = SendableValues children
    Sendable unsupported = ⊥
    Sendable value = Unit {0}

    pub SendableValues : Values T N → Type 0
    SendableValues no_values = Unit {0}
    SendableValues (value_then value children) = Sendable value × SendableValues children

    pub SendableItems : Items T N → Type 0
    SendableItems no_items = Unit {0}
    SendableItems (item_then key value items) = IsTextKey key × Sendable value × SendableItems items

  record Sent (value : Value T N) : Type 0 where
    wire : Wire
    encodes : encode_value L value ≡ ok wire
    decodes : decode_value L wire ≡ ok (plain value)
    truth : is_true (some wire) ≡ is_true_value value

  record SentValues (children : Values T N) : Type 0 where
    wires : Wires
    encodes : encode_values L children ≡ ok wires
    decodes : decode_values L wires ≡ ok (plain_values children)

  record SentItems (items : Items T N) : Type 0 where
    fields : Fields
    encodes : encode_items L items ≡ ok fields
    decodes : decode_fields L fields ≡ ok (plain_items items)
    truth : (tag : String) → is_true (get_wire tag fields) ≡ has_true tag items
    no_tuple : has_key tuple_tag items ≡ false → decode_tuple L fields ≡ none

  ints_of-wires_of : (ns : List ℕ) → ints_of L (wires_of ns) ≡ ok (map pos ns)
  unfolding ints_of
  ints_of-wires_of [] = refl
  ints_of-wires_of (n ∷ ns) = rw (ints_of-wires_of ns) refl

  module _ (base64 : (raw : List ℕ) → L.decode64 (L.encode64 raw) ≡ ok raw) where
    tensor-Sent : (t : T) → RestoresTensor t → Sent (tensor t)
    unfolding encode_value plain decode_value decode_tensor decode_object text_of data_of shape_of
        check_dtype
    tensor-Sent t h = record {
      wire =
          tagged tensor_tag (L.tensor_dtype t) (L.tensor_shape t) (L.encode64 (L.tensor_bytes t));
      encodes = refl;
      decodes =
          rw h.0 (
            rw (base64 (L.tensor_bytes t))
              (rw (ints_of-wires_of (L.tensor_shape t)) (rw h.1 refl)));
      truth = refl;
    }

    ndarray-Sent : (a : N) → RestoresArray a → Sent (ndarray a)
    unfolding encode_value plain decode_value decode_array decode_object text_of data_of shape_of
    ndarray-Sent a h = record {
      wire = tagged ndarray_tag (L.array_dtype a) (L.array_shape a) (L.encode64 (L.array_bytes a));
      encodes = refl;
      decodes = rw (base64 (L.array_bytes a)) (rw (ints_of-wires_of (L.array_shape a)) (rw h refl));
      truth = refl;
    }

    bytes-Sent : (raw : List ℕ) → Sent (bytes raw)
    unfolding encode_value plain decode_value decode_bytes decode_object data_of
    bytes-Sent raw = record {
      wire = object (
          field_then bytes_tag (atom (bool true))
            (field_then "data" (atom (str (L.encode64 raw))) no_fields));
      encodes = refl;
      decodes = rw (base64 raw) refl;
      truth = refl;
    }

    mapping-Sent :
        (items : Items T N) → is_untagged items ≡ true → SentItems items → Sent (mapping items)
    unfolding encode_value plain decode_value decode_object as_tuple
    mapping-Sent items h sent =
        let no_tensor = sent.truth tensor_tag in
        let no_array = sent.truth ndarray_tag in
        let no_bytes = sent.truth bytes_tag in
        let tensor_free : has_true tensor_tag items ≡ false = ground arith in
        let array_free : has_true ndarray_tag items ≡ false = ground arith in
        let bytes_free : has_true bytes_tag items ≡ false = ground arith in
        let tuple_free : has_key tuple_tag items ≡ false = ground arith in
        record {
          wire = object sent.fields;
          encodes = rw sent.encodes refl;
          decodes = rw (no_tensor ∙ tensor_free) (
              rw (no_array ∙ array_free) (
                rw (no_bytes ∙ bytes_free) (rw (sent.no_tuple tuple_free) (rw sent.decodes refl))));
          truth = refl;
        }

    tuple-Sent : (children : Values T N) → SentValues children → Sent (tuple children)
    unfolding encode_value plain decode_value decode_object as_tuple
    tuple-Sent children sent = record {
      wire = object (field_then tuple_tag (array sent.wires) no_fields);
      encodes = rw sent.encodes refl;
      decodes = rw sent.decodes refl;
      truth = refl;
    }

    list-Sent : (children : Values T N) → SentValues children → Sent (list children)
    unfolding encode_value plain decode_value
    list-Sent children sent = record {
      wire = array sent.wires;
      encodes = rw sent.encodes refl;
      decodes = rw sent.decodes refl;
      truth = refl;
    }

    scalar_truth : (s : Scalar) → is_true (some (atom s)) ≡ is_true_value {T = T} {N = N} (scalar s)
    scalar_truth s = ground arith

    scalar-Sent : (s : Scalar) → Sent (scalar s)
    unfolding encode_value plain decode_value
    scalar-Sent s = record { wire = atom s; encodes = refl; decodes = refl; truth = scalar_truth s }

    generic-Sent : (s : Scalar) → Sent (generic s)
    unfolding encode_value plain decode_value
    generic-Sent s = record {
      wire = atom s;
      encodes = refl;
      decodes = refl;
      truth = scalar_truth s;
    }

    value_then-Sent :
        (value : Value T N) (children : Values T N)
        → Sent value
        → SentValues children
        → SentValues (value_then value children)
    unfolding encode_value plain decode_value
    value_then-Sent value children first rest = record {
      wires = wire_then first.wire rest.wires;
      encodes = rw first.encodes (rw rest.encodes refl);
      decodes = rw first.decodes (rw rest.decodes refl);
    }

    item_then-Sent :
        (key : String) (value : Value T N) (items : Items T N)
        → Sent value
        → SentItems items
        → SentItems (item_then (text_key key) value items)
    unfolding encode_value plain decode_value
    item_then-Sent key value items first rest = record {
      fields = field_then key first.wire rest.fields;
      encodes = rw first.encodes (rw rest.encodes refl);
      decodes = rw first.decodes (rw rest.decodes refl);
      truth = λ tag. elim (Bool-cases (str_eq key tag)) [
        | inl same ↦ rw same first.truth
        | inr other ↦ rw other (rest.truth tag)
      ];
      no_tuple = λ h.
          let other : str_eq key tuple_tag ≡ false = ground arith in
          let later : has_key tuple_tag items ≡ false = ground arith in
          rw other (rest.no_tuple later);
    }

    mutual
      unfolding Sendable plain encode_value decode_value

      value-Sent : (value : Value T N) → Sendable value → Sent value
      value-Sent (tensor t) h = tensor-Sent t h
      value-Sent (ndarray a) h = ndarray-Sent a h
      value-Sent (bytes raw) h = bytes-Sent raw
      value-Sent (mapping items) h = mapping-Sent items h.0 (items-Sent items h.1)
      value-Sent (tuple children) h = tuple-Sent children (values-Sent children h)
      value-Sent (list children) h = list-Sent children (values-Sent children h)
      value-Sent (scalar s) h = scalar-Sent s
      value-Sent (generic s) h = generic-Sent s
      value-Sent unsupported h = absurd h

      values-Sent : (children : Values T N) → SendableValues children → SentValues children
      values-Sent no_values h = record { wires = no_wires; encodes = refl; decodes = refl }
      values-Sent (value_then value children) h =
          value_then-Sent value children (value-Sent value h.0) (values-Sent children h.1)

      items-Sent : (items : Items T N) → SendableItems items → SentItems items
      items-Sent no_items h = record {
        fields = no_fields;
        encodes = refl;
        decodes = refl;
        truth = λ tag. refl;
        no_tuple = λ h. refl;
      }
      items-Sent (item_then (text_key key) value items) h =
          item_then-Sent key value items (value-Sent value h.1) (items-Sent items h.2)
      items-Sent (item_then other_key value items) h = absurd h.0

    -- If decoding base64 undoes encoding it, each value that can be sent is encoded, and decoding gives
    -- the value again, with Python's scalars for numpy's.
    pub decode_value-encode_value :
        (value : Value T N)
        → Sendable value
        → (wire : Wire) × (encode_value L value ≡ ok wire)
          × (decode_value L wire ≡ ok (plain value))
    decode_value-encode_value value h =
        let sent = value-Sent value h in (sent.wire, sent.encodes, sent.decodes)
