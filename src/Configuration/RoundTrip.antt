-- ===== src/Configuration/RoundTrip.antt =====
-- A configuration that is written as JSON, and read by `createConfigFromPath`.
use finn_cpp_driver.Prelude.{
  ℕ, ◌^◌, ◌<◌, ◌≡◌, ◌≢◌, refl, sym, ap, ◌∙◌, Bool, true, false, List, [], ◌∷◌, map, All, some,
  Result, ok, traverse, traverse-map, codes, ◌>>=◌,
}
use finn_cpp_driver.Utils.{Shape}
use mathlib.Core.Bool.{false≢true}
use finn_cpp_driver.Types.{Name, same_name, same_name_self, BufferDescriptor, DeviceWrapper, Config}
use finn_cpp_driver.Configuration.{
  Json, LoadedWrapper, of_shape, get_shape, to_json, from_json, pointer_to_json, pointer_from_json,
  wrapper_from_json, create_config_from_path, dereference, dereferenced,
}

-- What the documentation of the library says of values that are made and read again.
pub record Documented (J : Json) : Type 0 where
  pub at_here :
      (key : Name) (v : J.Value) (fields : List (Name × J.Value))
      → J.at (J.of_object ((key, v) ∷ fields)) key ≡ ok v
  pub at_later :
      (key other : Name) (v : J.Value) (fields : List (Name × J.Value))
      → key ≢ other
      → J.at (J.of_object ((other, v) ∷ fields)) key ≡ J.at (J.of_object fields) key
  pub get_string-of_string : (s : Name) → J.get_string (J.of_string s) ≡ ok s
  pub get_unsigned-of_unsigned : (n : ℕ) → n < 2 ^ 32 → J.get_unsigned (J.of_unsigned n) ≡ ok n
  pub get_array-of_array : (vs : List J.Value) → J.get_array (J.of_array vs) ≡ ok vs
  pub items-of_array : (vs : List J.Value) → J.items (J.of_array vs) ≡ vs
  pub object_is_something :
      (fields : List (Name × J.Value)) → J.is_null (J.of_object fields) ≡ false

-- All numbers are those of an `unsigned int`.
abbrev pub Fits : Shape → Type 0
Fits shape = All (λ n. n < 2 ^ 32) shape

abbrev pub DescriptorFits : BufferDescriptor → Type 0
DescriptorFits d = Fits d.packed_shape × Fits d.normal_shape × Fits d.folded_shape

abbrev pub WrapperFits : DeviceWrapper → Type 0
WrapperFits w =
    (w.xrt_device_index < 2 ^ 32) × All DescriptorFits w.idmas × All DescriptorFits w.odmas

-- A wrapper that has no null pointer.
abbrev pub loaded : DeviceWrapper → LoadedWrapper
loaded w = record {
  xclbin = w.xclbin;
  xrt_device_index = w.xrt_device_index;
  idmas = map some w.idmas;
  odmas = map some w.odmas;
}

traverse-map_All {ℓ κ ι μ} :
    {A : Type ℓ} {B : Type κ} {C : Type ι} (P : A → Type μ) (f : B → Result C) (g : A → B)
    (h : A → C) (xs : List A)
    → ((x : A) → P x → f (g x) ≡ ok (h x))
    → All P xs
    → traverse f (map g xs) ≡ ok (map h xs)
traverse-map_All P f g h [] each all = refl
traverse-map_All P f g h (x ∷ xs) each all =
    rw (each x all.0, traverse-map_All P f g h xs each all.1) refl

map_id {ℓ} : {A : Type ℓ} (xs : List A) → map (λ x. x) xs ≡ xs
map_id [] = refl
map_id (x ∷ xs) = ap (◌∷◌ x) (map_id xs)

names_differ : {a b : Name} → same_name a b ≡ false → a ≢ b
names_differ {a} e h = false≢true (sym e ∙ ap (same_name a) (sym h) ∙ same_name_self a)

module _ (J : Json) where
  -- A configuration file by the fields that it has.
  abbrev pub wrapper_to_json : DeviceWrapper → J.Value
  wrapper_to_json w = J.of_object (
      (codes "xclbinPath", J.of_string w.xclbin)
      ∷ (codes "xrtDeviceIndex", J.of_unsigned w.xrt_device_index)
      ∷ (codes "idmas", J.of_array (map (λ d. pointer_to_json J (some d)) w.idmas))
      ∷ (codes "odmas", J.of_array (map (λ d. pointer_to_json J (some d)) w.odmas))
      ∷ [])

  module _ (D : Documented J) where
    get_shape-of_shape : (shape : Shape) → Fits shape → get_shape J (of_shape J shape) ≡ ok shape
    get_shape-of_shape shape fits = rw (D.get_array-of_array (map J.of_unsigned shape)) (
        traverse-map_All (λ n. n < 2 ^ 32) J.get_unsigned J.of_unsigned (λ n. n) shape
          D.get_unsigned-of_unsigned fits
        ∙ ap ok (map_id shape))

    -- The fields of an object with four.
    four_fields :
        (a b c d : Name) (v w x y : J.Value)
        → same_name b a ≡ false
        → (same_name c a ≡ false) × (same_name c b ≡ false)
        → (same_name d a ≡ false) × (same_name d b ≡ false) × (same_name d c ≡ false)
        → (J.at (J.of_object ((a, v) ∷ (b, w) ∷ (c, x) ∷ (d, y) ∷ [])) a ≡ ok v)
          × (J.at (J.of_object ((a, v) ∷ (b, w) ∷ (c, x) ∷ (d, y) ∷ [])) b ≡ ok w)
          × (J.at (J.of_object ((a, v) ∷ (b, w) ∷ (c, x) ∷ (d, y) ∷ [])) c ≡ ok x)
          × (J.at (J.of_object ((a, v) ∷ (b, w) ∷ (c, x) ∷ (d, y) ∷ [])) d ≡ ok y)
    four_fields a b c d v w x y ba (ca, cb) (da, db, dc) = (
      D.at_here a v ((b, w) ∷ (c, x) ∷ (d, y) ∷ []),
      D.at_later b a v ((b, w) ∷ (c, x) ∷ (d, y) ∷ []) (names_differ ba)
          ∙ D.at_here b w ((c, x) ∷ (d, y) ∷ []),
      D.at_later c a v ((b, w) ∷ (c, x) ∷ (d, y) ∷ []) (names_differ ca)
          ∙ D.at_later c b w ((c, x) ∷ (d, y) ∷ []) (names_differ cb)
          ∙ D.at_here c x ((d, y) ∷ []),
      D.at_later d a v ((b, w) ∷ (c, x) ∷ (d, y) ∷ []) (names_differ da)
          ∙ D.at_later d b w ((c, x) ∷ (d, y) ∷ []) (names_differ db)
          ∙ D.at_later d c x ((d, y) ∷ []) (names_differ dc)
          ∙ D.at_here d y [],
    )

    from_json-to_json : (d : BufferDescriptor) → DescriptorFits d → from_json J (to_json J d) ≡ ok d
    unfolding from_json to_json same_name
    from_json-to_json d (packed, normal, folded) =
        let (name, first, second, third) =
          four_fields (codes "kernelName") (codes "packedShape") (codes "normalShape")
            (codes "foldedShape") (J.of_string d.kernel_name) (of_shape J d.packed_shape)
            (of_shape J d.normal_shape) (of_shape J d.folded_shape) refl (refl, refl)
            (refl, refl, refl) in
        rw
          (
            name,
            first,
            second,
            third,
            D.get_string-of_string d.kernel_name,
            get_shape-of_shape d.packed_shape packed,
            get_shape-of_shape d.normal_shape normal,
            get_shape-of_shape d.folded_shape folded,
          )
          refl

    pointer_from_json-pointer_to_json :
        (d : BufferDescriptor)
        → DescriptorFits d
        → pointer_from_json J (pointer_to_json J (some d)) ≡ ok (some d)
    unfolding pointer_from_json pointer_to_json
    pointer_from_json-pointer_to_json d fits = rw (something d, from_json-to_json d fits) refl
      where
        something : (d : BufferDescriptor) → J.is_null (to_json J d) ≡ false
        something d = D.object_is_something _

    pointers :
        (ds : List BufferDescriptor)
        → All DescriptorFits ds
        → traverse (pointer_from_json J) (map (λ d. pointer_to_json J (some d)) ds)
          ≡ ok (map some ds)
    pointers ds fits =
        traverse-map_All DescriptorFits (pointer_from_json J) (λ d. pointer_to_json J (some d)) some
          ds pointer_from_json-pointer_to_json fits

    wrapper_from_json-wrapper_to_json :
        (w : DeviceWrapper)
        → WrapperFits w
        → wrapper_from_json J (wrapper_to_json w) ≡ ok (loaded w)
    unfolding wrapper_from_json same_name
    wrapper_from_json-wrapper_to_json w (index, inputs, outputs) =
        let (path, number, ins, outs) =
          four_fields (codes "xclbinPath") (codes "xrtDeviceIndex") (codes "idmas") (codes "odmas")
            (J.of_string w.xclbin) (J.of_unsigned w.xrt_device_index)
            (J.of_array (map (λ d. pointer_to_json J (some d)) w.idmas))
            (J.of_array (map (λ d. pointer_to_json J (some d)) w.odmas)) refl (refl, refl)
            (refl, refl, refl) in
        rw
          (
            path,
            number,
            ins,
            outs,
            D.get_string-of_string w.xclbin,
            D.get_unsigned-of_unsigned w.xrt_device_index index,
            D.get_array-of_array (map (λ d. pointer_to_json J (some d)) w.idmas),
            D.get_array-of_array (map (λ d. pointer_to_json J (some d)) w.odmas),
            pointers w.idmas inputs,
            pointers w.odmas outputs,
          )
          refl

    dereference-some : (ds : List BufferDescriptor) → traverse dereference (map some ds) ≡ ok ds
    unfolding dereference
    dereference-some ds = traverse-map dereference some (λ d. d) ds (λ d. refl) ∙ ap ok (map_id ds)

    dereferenced-loaded : (w : DeviceWrapper) → dereferenced (loaded w) ≡ ok w
    unfolding dereferenced
    dereferenced-loaded w = rw (dereference-some w.idmas, dereference-some w.odmas) refl

    -- `createConfigFromPath` on a regular file that holds a configuration, as an array of objects with
    -- the fields of `DeviceWrapper` and the descriptions as `to_json` writes them, returns this
    -- configuration, without a null pointer in it, if its numbers are those of an `unsigned int`.
    pub create_config_from_path-wrapper_to_json :
        (is_file : Name → Bool) (contents : Name → List ℕ) (path : Name) (config : Config)
        → is_file path ≡ true
        → J.parse (contents path) ≡ ok (J.of_array (map wrapper_to_json config))
        → All WrapperFits config
        → (create_config_from_path J is_file contents path ≡ ok (map loaded config))
          × ((create_config_from_path J is_file contents path >>= traverse dereferenced)
              ≡ ok config)
    unfolding create_config_from_path
    create_config_from_path-wrapper_to_json is_file contents path config file parsed fits = (
      read,
      rw read (
          traverse-map dereferenced loaded (λ w. w) config dereferenced-loaded
          ∙ ap ok (map_id config)),
    )
      where
        read : create_config_from_path J is_file contents path ≡ ok (map loaded config)
        read =
            rw (file, parsed, D.items-of_array (map wrapper_to_json config))
              (traverse-map_All WrapperFits (wrapper_from_json J) wrapper_to_json loaded config
                wrapper_from_json-wrapper_to_json fits)
