-- ===== src/Rpc/Values.antt =====
-- rpc_protocol.py: the values of a call, and their encoding as JSON. A Python mapping, and an object of
-- JSON, is the list of its items in the order of its keys, since neither equality sees an order.
pub mod Examples
pub mod RoundTrip
use Prim.Native.String.{[] as no_text, ◌∷◌ as text_then}
use action_stream.Prelude.{
  ℕ, ℤ, pos, Float, String, Bool, true, false, ◌||◌, Option, none, some, List, [], ◌∷◌, map, str_eq,
  if◌then◌else◌, Result, ok, err, ◌>>=◌,
}

pub data WireError : Type 0 where
  type_error value_error key_error : WireError

-- what JSON has beside arrays and objects
pub data Scalar : Type 0 where
  null : Scalar
  bool : Bool → Scalar
  int : ℤ → Scalar
  float : Float → Scalar
  str : String → Scalar

pub data Key : Type 0 where
  text_key : String → Key
  other_key : Key

-- the values that a caller passes: `T` stands for torch's tensors and `N` for numpy's arrays
mutual
  pub data Value (T N : Type 0) : Type 0 where
    tensor : T → Value T N
    ndarray : N → Value T N
    bytes : List ℕ → Value T N
    mapping : Items T N → Value T N
    tuple list : Values T N → Value T N
    scalar : Scalar → Value T N
    -- a scalar of numpy's, by its `item()`
    generic : Scalar → Value T N
    unsupported : Value T N

  pub data Values (T N : Type 0) : Type 0 where
    no_values : Values T N
    value_then : Value T N → Values T N → Values T N

  pub data Items (T N : Type 0) : Type 0 where
    no_items : Items T N
    item_then : Key → Value T N → Items T N → Items T N

-- what `json.loads` returns
mutual
  pub data Wire : Type 0 where
    atom : Scalar → Wire
    array : Wires → Wire
    object : Fields → Wire

  pub data Wires : Type 0 where
    no_wires : Wires
    wire_then : Wire → Wires → Wires

  pub data Fields : Type 0 where
    no_fields : Fields
    field_then : String → Wire → Fields → Fields

-- the libraries: base64, torch, numpy and the JSON text
pub record Libraries (T N : Type 0) : Type 0 where
  pub encode64 : List ℕ → String
  pub decode64 : String → Result WireError (List ℕ)
  -- `int` of a text or a float
  pub int_of : Scalar → Result WireError ℤ
  pub tensor_dtype : T → String
  pub tensor_shape : T → List ℕ
  pub tensor_bytes : T → List ℕ
  -- `frombuffer` and `reshape`
  pub make_tensor : String → List ℕ → List ℤ → Result WireError T
  pub array_dtype : N → String
  pub array_shape : N → List ℕ
  pub array_bytes : N → List ℕ
  pub make_array : String → List ℕ → List ℤ → Result WireError N
  pub dumps : Wire → Result WireError (List ℕ)
  pub loads : List ℕ → Result WireError Wire

abbrev pub tensor_tag : String
tensor_tag = "__actionstream_tensor__"

abbrev pub ndarray_tag : String
ndarray_tag = "__actionstream_ndarray__"

abbrev pub bytes_tag : String
bytes_tag = "__actionstream_bytes__"

abbrev pub tuple_tag : String
tuple_tag = "__actionstream_tuple__"

-- the keys of `_TORCH_DTYPES`
abbrev torch_dtypes : List String
torch_dtypes =
    "torch.bool" ∷ "torch.uint8" ∷ "torch.int8" ∷ "torch.int16" ∷ "torch.int32" ∷ "torch.int64"
    ∷ "torch.float16" ∷ "torch.bfloat16" ∷ "torch.float32" ∷ "torch.float64" ∷ []

abbrev is_in : String → List String → Bool
is_in name [] = false
is_in name (n ∷ names) = str_eq name n || is_in name names

abbrev pub is_torch_dtype : String → Bool
is_torch_dtype name = is_in name torch_dtypes

-- `value.get(key)`
abbrev pub get_wire : String → Fields → Option Wire
get_wire key no_fields = none
get_wire key (field_then name wire fields) =
    let later = get_wire key fields in if str_eq name key then some wire else later

abbrev pub is_true : Option Wire → Bool
is_true (some (atom (bool b))) = b
is_true wire = false

abbrev pub wires_of : List ℕ → Wires
wires_of [] = no_wires
wires_of (n ∷ ns) = wire_then (atom (int (pos n))) (wires_of ns)

-- the object that stands for a tensor or an array
abbrev pub tagged : String → String → List ℕ → String → Wire
tagged tag dtype shape raw = object (
    field_then tag (atom (bool true)) (
      field_then "dtype" (atom (str dtype)) (
        field_then "shape" (array (wires_of shape))
          (field_then "data" (atom (str raw)) no_fields))))

module _ {T N : Type 0} (L : Libraries T N) where
  -- `_encode_value`
  unfoldable mutual
    pub encode_value : Value T N → Result WireError Wire
    encode_value (tensor t) =
        ok (tagged tensor_tag (L.tensor_dtype t) (L.tensor_shape t) (L.encode64 (L.tensor_bytes t)))
    encode_value (ndarray a) =
        ok (tagged ndarray_tag (L.array_dtype a) (L.array_shape a) (L.encode64 (L.array_bytes a)))
    encode_value (bytes raw) = ok (
        object (
          field_then bytes_tag (atom (bool true))
            (field_then "data" (atom (str (L.encode64 raw))) no_fields)))
    encode_value (mapping items) = encode_items items >>= λ fields. ok (object fields)
    encode_value (tuple values) =
        encode_values values >>= λ wires. ok (object (field_then tuple_tag (array wires) no_fields))
    encode_value (list values) = encode_values values >>= λ wires. ok (array wires)
    encode_value (scalar s) = ok (atom s)
    encode_value (generic s) = ok (atom s)
    encode_value unsupported = err type_error

    pub encode_values : Values T N → Result WireError Wires
    encode_values no_values = ok no_wires
    encode_values (value_then value values) =
        encode_value value >>= λ wire. encode_values values >>= λ wires. ok (wire_then wire wires)

    pub encode_items : Items T N → Result WireError Fields
    encode_items no_items = ok no_fields
    encode_items (item_then (text_key key) value items) = encode_value value >>= λ wire.
        encode_items items >>= λ fields. ok (field_then key wire fields)
    encode_items (item_then other_key value items) = err type_error

  -- `value["data"]`, decoded
  data_of : Option Wire → Result WireError (List ℕ)
  data_of none = err key_error
  data_of (some (atom (str raw))) = L.decode64 raw
  data_of (some wire) = err type_error

  text_of : Option Wire → Result WireError String
  text_of none = err key_error
  text_of (some (atom (str s))) = ok s
  text_of (some wire) = err type_error

  to_int : Scalar → Result WireError ℤ
  to_int (int n) = ok n
  to_int (bool true) = ok (pos 1)
  to_int (bool false) = ok (pos 0)
  to_int null = err type_error
  to_int s = L.int_of s

  ints_of : Wires → Result WireError (List ℤ)
  unfolding to_int
  ints_of no_wires = ok []
  ints_of (wire_then (atom s) wires) = to_int s >>= λ n. ints_of wires >>= λ ns. ok (n ∷ ns)
  ints_of (wire_then wire wires) = err type_error

  -- `tuple(int(item) for item in value["shape"])`
  shape_of : Option Wire → Result WireError (List ℤ)
  shape_of none = err key_error
  shape_of (some (array wires)) = ints_of wires
  shape_of (some wire) = err type_error

  check_dtype : String → Result WireError String
  check_dtype dtype = if is_torch_dtype dtype then ok dtype else err value_error

  decode_tensor : Fields → Result WireError (Value T N)
  unfolding data_of text_of shape_of check_dtype
  decode_tensor fields = text_of (get_wire "dtype" fields) >>= λ name. check_dtype name >>= λ dtype.
      data_of (get_wire "data" fields) >>= λ raw. shape_of (get_wire "shape" fields) >>= λ shape.
      L.make_tensor dtype raw shape >>= λ t. ok (tensor t)

  decode_array : Fields → Result WireError (Value T N)
  unfolding data_of text_of shape_of
  decode_array fields = text_of (get_wire "dtype" fields) >>= λ dtype.
      data_of (get_wire "data" fields) >>= λ raw. shape_of (get_wire "shape" fields) >>= λ shape.
      L.make_array dtype raw shape >>= λ a. ok (ndarray a)

  decode_bytes : Fields → Result WireError (Value T N)
  unfolding data_of
  decode_bytes fields = data_of (get_wire "data" fields) >>= λ raw. ok (bytes raw)

  as_tuple :
      Option (Result WireError (Values T N))
      → Result WireError (Items T N)
      → Result WireError (Value T N)
  as_tuple none items = items >>= λ fields. ok (mapping fields)
  as_tuple (some values) items = values >>= λ found. ok (tuple found)

  -- the characters of a text, and the keys of an object
  characters : String → Values T N
  characters no_text = no_values
  characters (text_then c s) = value_then (scalar (str (text_then c no_text))) (characters s)

  keys_of : Fields → Values T N
  keys_of no_fields = no_values
  keys_of (field_then key wire fields) = value_then (scalar (str key)) (keys_of fields)

  -- an object, from what its children decode to
  decode_object :
      Fields
      → Option (Result WireError (Values T N))
      → Result WireError (Items T N)
      → Result WireError (Value T N)
  unfolding decode_tensor decode_array decode_bytes as_tuple
  decode_object fields values items =
      if is_true (get_wire tensor_tag fields)
      then decode_tensor fields
      else if is_true (get_wire ndarray_tag fields)
      then decode_array fields
      else if is_true (get_wire bytes_tag fields)
      then decode_bytes fields
      else as_tuple values items

  -- `_decode_value`
  mutual
    unfolding decode_object characters keys_of

    pub decode_value : Wire → Result WireError (Value T N)
    decode_value (atom s) = ok (scalar s)
    decode_value (array wires) = decode_values wires >>= λ values. ok (list values)
    decode_value (object fields) = decode_object fields (decode_tuple fields) (decode_fields fields)

    pub decode_values : Wires → Result WireError (Values T N)
    decode_values no_wires = ok no_values
    decode_values (wire_then wire wires) = decode_value wire >>= λ value.
        decode_values wires >>= λ values. ok (value_then value values)

    pub decode_fields : Fields → Result WireError (Items T N)
    decode_fields no_fields = ok no_items
    decode_fields (field_then key wire fields) = decode_value wire >>= λ value.
        decode_fields fields >>= λ items. ok (item_then (text_key key) value items)

    -- what the tag of a tuple holds, if the object has it
    pub decode_tuple : Fields → Option (Result WireError (Values T N))
    decode_tuple no_fields = none
    decode_tuple (field_then key wire fields) =
        let here = decode_elements wire in
        let later = decode_tuple fields in if str_eq key tuple_tag then some here else later

    pub decode_elements : Wire → Result WireError (Values T N)
    decode_elements (atom (str s)) = ok (characters s)
    decode_elements (atom s) = err type_error
    decode_elements (array wires) = decode_values wires
    decode_elements (object fields) = ok (keys_of fields)
