-- ===== src/Configuration/Tests.antt =====
-- Reading a configuration at concrete values: JSON values as a data type.
use finn_cpp_driver.Prelude.{
  ℕ, ◌≡◌, refl, arith, ap, Bool, true, false, List, [], ◌∷◌, map, if◌then◌else◌, Result, ok, err,
  json_error, traverse, Bool-cases, inl, inr, codes, ◌>>=◌,
}
use finn_cpp_driver.Types.{Name, same_name, same_name_self, same_name-eq, BufferDescriptor, Config}
use finn_cpp_driver.Configuration.{
  Json, to_json, pointer_to_json, create_config_from_path, dereferenced, get_config_shapes,
}
use finn_cpp_driver.Configuration.RoundTrip.{
  Documented, loaded, wrapper_to_json, create_config_from_path-wrapper_to_json,
}

mutual
  data Value : Type 0 where
    null : Value
    string : Name → Value
    unsigned : ℕ → Value
    array : Items → Value
    object : Fields → Value

  data Items : Type 0 where
    nil : Items
    cons : Value → Items → Items

  data Fields : Type 0 where
    end : Fields
    field : Name → Value → Fields → Fields

abbrev items : Items → List Value
items nil = []
items (cons v vs) = v ∷ items vs

abbrev of_items : List Value → Items
of_items [] = nil
of_items (v ∷ vs) = cons v (of_items vs)

abbrev of_fields : List (Name × Value) → Fields
of_fields [] = end
of_fields ((key, v) ∷ fs) = field key v (of_fields fs)

abbrev lookup : Name → Fields → Result Value
lookup key end = err json_error
lookup key (field other v fs) =
    let rest = lookup key fs in if same_name key other then ok v else rest

items-of_items : (vs : List Value) → items (of_items vs) ≡ vs
items-of_items [] = refl
items-of_items (v ∷ vs) = ap (◌∷◌ v) (items-of_items vs)

abbrev at : Value → Name → Result Value
at (object fs) key = lookup key fs
at other key = err json_error

abbrev get_string : Value → Result Name
get_string (string s) = ok s
get_string other = err json_error

abbrev get_unsigned : Value → Result ℕ
get_unsigned (unsigned n) = ok n
get_unsigned other = err json_error

abbrev get_array : Value → Result (List Value)
get_array (array vs) = ok (items vs)
get_array other = err json_error

abbrev visited : Value → List Value
visited (array vs) = items vs
visited other = []

abbrev is_null : Value → Bool
is_null null = true
is_null other = false

-- All files hold the value `file`.
abbrev json : Value → Json
json file = record {
  Value = Value;
  parse = λ contents. ok file;
  is_null = is_null;
  at = at;
  get_string = get_string;
  get_unsigned = get_unsigned;
  get_array = get_array;
  items = visited;
  null = null;
  of_string = string;
  of_unsigned = unsigned;
  of_array = λ vs. array (of_items vs);
  of_object = λ fs. object (of_fields fs);
}

json-Documented : (file : Value) → Documented (json file)
json-Documented file = record {
  at_here = λ key v fs. rw (same_name_self key) refl;
  at_later = λ key other v fs apart. elim (Bool-cases (same_name key other)) [
    | inl e ↦ absurd (apart (same_name-eq key other e))
    | inr e ↦ rw e refl
  ];
  get_string-of_string = λ s. refl;
  get_unsigned-of_unsigned = λ n small. refl;
  get_array-of_array = λ vs. ap ok (items-of_items vs);
  items-of_array = items-of_items;
  object_is_something = λ fs. refl;
}

abbrev descriptor : BufferDescriptor
descriptor = record {
  kernel_name = codes "idma0";
  packed_shape = 1 ∷ 4 ∷ [];
  normal_shape = 1 ∷ 8 ∷ [];
  folded_shape = 1 ∷ 1 ∷ 8 ∷ [];
}

abbrev config : Config
config =
    record {
      xclbin = codes "finn.xclbin";
      xrt_device_index = 0;
      idmas = descriptor ∷ [];
      odmas = record descriptor { kernel_name = codes "odma0" } ∷ [];
    }
    ∷ []

abbrev file : Value
file = array (of_items (map (wrapper_to_json (json null)) config))

create_config_from_path-wrapper_to_json_example :
    (create_config_from_path (json file) (λ path. true) (λ path. []) (codes "config.json")
      ≡ ok (map loaded config))
    × ((create_config_from_path (json file) (λ path. true) (λ path. []) (codes "config.json")
          >>= traverse dereferenced)
        ≡ ok config)
unfolding pointer_to_json to_json
create_config_from_path-wrapper_to_json_example =
    create_config_from_path-wrapper_to_json (json file) (json-Documented file) (λ path. true)
      (λ path. []) (codes "config.json") config refl refl (omega arith)

shapes : get_config_shapes config 0 0 ≡ ok (1 ∷ 8 ∷ [], 1 ∷ 1 ∷ 8 ∷ [], 1 ∷ 4 ∷ [])
unfolding get_config_shapes
shapes = refl
