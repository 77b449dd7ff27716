-- ===== src/Buffers/Sizes.antt =====
-- Whether the mapped memory of a buffer has room for what the buffer says it holds.
use native.Mathlib.Nat.{mod-eq_of_lt, mul-le-mul_left, mul-le-mul_right}
use finn_cpp_driver.Prelude.{
  ℕ, ◌*◌, ◌%◌, ◌^◌, ◌≤◌, ◌<◌, ◌≡◌, refl, sym, ap, ◌∙◌, arith, true, false, List, ◌∷◌, ◌++◌, length,
  take, drop, length-take, length-replicate, replicate, take_append, leb, ok, err, undefined, ◌>>=◌,
}
use finn_cpp_driver.Utils.{Shape, shape_to_elements, get_actual_buffer_size}
use finn_cpp_driver.Utils.BufferSize.{get_actual_buffer_size_lem}
use finn_cpp_driver.Utils.Shapes.{product, shape_to_elements_lem}
use finn_cpp_driver.Types.{Name, total_data_size}
use finn_cpp_driver.Buffers.{DeviceBuffer, sync_to_device, set_first, new, execute, size_of}
use finn_cpp_driver.Buffers.Input
use finn_cpp_driver.Buffers.Output

-- The constructor maps enough memory for `batch_size` inputs of the given shape.
pub new-room :
    (adr : ℕ) (name : Name) (d : ℕ) (rest : Shape) (batch_size : ℕ)
    → product (d ∷ rest) * batch_size < 2 ^ 31
    → product (d ∷ rest) < 2 ^ 31
    → (b : DeviceBuffer) × (new adr name (d ∷ rest) batch_size ≡ ok b)
      × (b.shape_packed ≡ batch_size ∷ rest)
      × (length b.mapped ≡ get_actual_buffer_size (product (d ∷ rest) * batch_size))
      × (product (d ∷ rest) * batch_size ≤ length b.mapped)
unfolding new set_first
new-room adr name d rest batch_size small small' =
    (_, refl, refl, size, omega (arith, size, reaches))
  where
    map_size : ℕ
    map_size = get_actual_buffer_size (shape_to_elements (d ∷ rest) * batch_size % 2 ^ 64)

    request : shape_to_elements (d ∷ rest) * batch_size % 2 ^ 64 ≡ product (d ∷ rest) * batch_size
    request =
        ap (λ (k : ℕ). k * batch_size % 2 ^ 64) (shape_to_elements_lem (d ∷ rest) (λ p. cc) small')
        ∙ mod-eq_of_lt (omega arith)

    size :
        length {A = ℕ} (replicate map_size 0)
        ≡ get_actual_buffer_size (product (d ∷ rest) * batch_size)
    size = length-replicate map_size 0 ∙ ap get_actual_buffer_size request

    reaches :
        product (d ∷ rest) * batch_size ≤ get_actual_buffer_size (product (d ∷ rest) * batch_size)
    reaches = (get_actual_buffer_size_lem (product (d ∷ rest) * batch_size) (omega arith)).2

-- An input buffer for `batch_size` inputs takes exactly as many bytes as it reports as its total
-- size: `store` keeps them at the front of the mapped memory, within its bounds, and `run` hands
-- over all of them and starts the kernel for `batch_size` repetitions. It is stated for packed
-- shapes and batch sizes with fewer than `2 ^ 31` bytes, and at least one.
pub store-run :
    (adr : ℕ) (name : Name) (d : ℕ) (rest : Shape) (batch_size : ℕ) (values : List ℕ)
    → 1 ≤ d
    → product (d ∷ rest) < 2 ^ 31
    → product (d ∷ rest) * batch_size < 2 ^ 31
    → length values ≡ batch_size * product rest
    → (b filled : DeviceBuffer) × (Input.make adr name (d ∷ rest) batch_size ≡ ok b)
      × (Input.size b total_data_size ≡ ok (length values))
      × (Input.store values b ≡ ok (true, filled))
      × (take (length values) filled.mapped ≡ values)
      × (Input.run filled
          ≡ ok (
            true,
            execute batch_size
                (record filled { calls = sync_to_device (length values) ∷ filled.calls }),
          ))
unfolding Input.make Input.size Input.store Input.run size_of
store-run adr name d rest batch_size values pos small' small e =
    let (b, made, shape, _, room) = new-room adr name d rest batch_size small small' in
    let count : shape_to_elements (batch_size ∷ rest) ≡ length values =
      shape_to_elements_lem (batch_size ∷ rest) (λ p. cc) (omega (arith, one_less)) ∙ sym e in
    (
      record b { shape_packed = batch_size ∷ rest },
      record b {
        shape_packed = batch_size ∷ rest;
        mapped = values ++ drop (length values) b.mapped;
      },
      rw (made, shape) refl,
      ap ok count,
      ground (arith, room, e, one_less),
      take_append values (drop (length values) b.mapped),
      rw count refl,
    )
  where
    one_less : batch_size * product rest ≤ product (d ∷ rest) * batch_size
    one_less = omega (arith, mul-le-mul_left batch_size base_le)
      where
        base_le : product rest ≤ product (d ∷ rest)
        base_le = grind arith

-- An output buffer maps memory for one batch of the packed shape, but counts the elements of the
-- batches it is asked for.
pub make-room :
    (adr : ℕ) (name : Name) (d : ℕ) (rest : Shape) (batch_size : ℕ)
    → product (d ∷ rest) < 2 ^ 31
    → batch_size * product rest < 2 ^ 31
    → (o : Output.OutputBuffer) × (Output.make adr name (d ∷ rest) batch_size ≡ ok o)
      × (o.element_count ≡ batch_size * product rest)
      × (length o.base.mapped ≡ get_actual_buffer_size (product (d ∷ rest)))
      × (o.base.shape_packed ≡ batch_size ∷ rest)
unfolding Output.make
make-room adr name d rest batch_size small small' =
    let (b, made, shape, size, _) = new-room adr name d rest 1 (omega arith) small in
    (
      record {
        base = record b { shape_packed = batch_size ∷ rest };
        element_count = shape_to_elements (batch_size ∷ rest);
      },
      rw (made, shape) refl,
      shape_to_elements_lem (batch_size ∷ rest) (λ p. cc) small',
      size ∙ ap get_actual_buffer_size (omega arith),
      refl,
    )

-- With a batch size up to the first dimension of a packed shape of fewer than `2 ^ 31` bytes, `read`
-- of a new output buffer transfers the bytes of the batch, and `getData` then stays within the mapped
-- memory and returns the front of what the transfer leaves there, exactly the bytes of the batch. A
-- transfer keeps the size of the memory.
pub get_data_in_bounds :
    (adr : ℕ) (name : Name) (d : ℕ) (rest : Shape) (batch_size : ℕ) (fetch : ℕ → List ℕ → List ℕ)
    → ((n : ℕ) (memory : List ℕ) → length (fetch n memory) ≡ length memory)
    → batch_size ≤ d
    → product (d ∷ rest) < 2 ^ 31
    → (o : Output.OutputBuffer) × (Output.make adr name (d ∷ rest) batch_size ≡ ok o)
      × (Output.get_data (Output.read fetch o).1
          ≡ ok (take (batch_size * product rest) (fetch (batch_size * product rest) o.base.mapped)))
      × (length (take (batch_size * product rest) (fetch (batch_size * product rest) o.base.mapped))
          ≡ batch_size * product rest)
unfolding Output.get_data Output.read
get_data_in_bounds adr name d rest batch_size fetch keeps le small =
    let (o, made, count, size, _) =
      make-room adr name d rest batch_size small (omega (arith, fewer)) in
    let enough : batch_size * product rest
        ≤ length (fetch (batch_size * product rest) o.base.mapped) =
      omega (
        arith,
        keeps (batch_size * product rest) o.base.mapped,
        size,
        fewer,
        (get_actual_buffer_size_lem (product (d ∷ rest)) (omega arith)).2,
      ) in
    (
      o,
      made,
      rw count (ground arith),
      omega (
        arith,
        length-take (batch_size * product rest) (fetch (batch_size * product rest) o.base.mapped),
      ),
    )
  where
    fewer : batch_size * product rest ≤ product (d ∷ rest)
    fewer = grind arith

-- With a batch size of at least twice the first dimension of a packed shape of at least 4096 bytes,
-- `getData` of a new output buffer reads past the mapped memory, which the constructor sizes for one
-- batch of the packed shape. The batch has fewer than `2 ^ 31` bytes.
pub get_data_overreads :
    (adr : ℕ) (name : Name) (d : ℕ) (rest : Shape) (batch_size : ℕ)
    → 2 * d ≤ batch_size
    → 4096 ≤ product (d ∷ rest)
    → batch_size * product rest < 2 ^ 31
    → (Output.make adr name (d ∷ rest) batch_size >>= Output.get_data) ≡ err undefined
unfolding Output.get_data
get_data_overreads adr name d rest batch_size hb hp small =
    let (o, made, count, size, _) =
      make-room adr name d rest batch_size (omega (arith, doubled)) small in
    rw (made, short o count size) refl
  where
    doubled : 2 * product (d ∷ rest) ≤ batch_size * product rest
    doubled = omega (arith, mul-le-mul_right (product rest) hb)

    short :
        (o : Output.OutputBuffer)
        → o.element_count ≡ batch_size * product rest
        → length o.base.mapped ≡ get_actual_buffer_size (product (d ∷ rest))
        → leb o.element_count (length o.base.mapped) ≡ false
    short o count size = ground (
      arith,
      doubled,
      count,
      size,
      (get_actual_buffer_size_lem (product (d ∷ rest)) (omega (arith, doubled))).4,
    )
