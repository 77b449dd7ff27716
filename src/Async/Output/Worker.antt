-- ===== src/Async/Output/Worker.antt =====
-- core/DeviceBuffer/AsyncDeviceBuffers.hpp: the clients of an asynchronous output buffer and its
-- thread, `readInternal`, in the orders in which they can run.
use finn_cpp_driver.Prelude.{ℕ, ◌≡◌, true, false, List, [], ◌++◌, length, take, some, ok}
use finn_cpp_driver.Circular.{CircularBuffer}
use finn_cpp_driver.Utils.{Shape}
use finn_cpp_driver.Types.{Name}
use finn_cpp_driver.RingBuffer.{full}
use finn_cpp_driver.Async.Output.{
  AsyncOutput, make, sync, save_map, archive_valid_buffer_parts, get_data,
}

-- Where the thread is in its loop: before `sync`, `saveMap`, the test or the archiving after it.
pub data Pc : Type 0 where
  syncing saving testing archiving stopped : Pc

-- The buffer and its thread, with all results that the thread saved and all that clients were given.
pub record System (C : CircularBuffer ℕ) : Type 0 where
  pub buffer : AsyncOutput C
  pub pc : Pc
  pub saved : List ℕ
  pub given : List ℕ

-- The bytes that `saveMap` reads.
abbrev pub result : {C : CircularBuffer ℕ} → AsyncOutput C → List ℕ
result o = take o.ring.elements_per_part o.base.mapped

-- The thread's own steps, and the calls that clients make at any time. A transfer leaves any bytes,
-- as many as the memory has. `saves` happens once `saveMap` need not wait.
pub data Step (C : CircularBuffer ℕ) (s : System C) : System C → Type 0 where
  syncs :
      (fetched : List ℕ)
      → s.pc ≡ syncing
      → length fetched ≡ length s.buffer.base.mapped
      → Step C s (record s { buffer = sync C fetched s.buffer; pc = saving })
  saves :
      {o : AsyncOutput C}
      → s.pc ≡ saving
      → save_map C s.buffer ≡ ok (some o)
      → Step C s (record s { buffer = o; pc = testing; saved = s.saved ++ result s.buffer })
  tests_full : s.pc ≡ testing → full C s.buffer.ring ≡ true → Step C s (record s { pc = archiving })
  tests_other : s.pc ≡ testing → full C s.buffer.ring ≡ false → Step C s (record s { pc = syncing })
  archives :
      s.pc ≡ archiving
      → Step C s (record s { buffer = archive_valid_buffer_parts C s.buffer; pc = syncing })
  stops : s.pc ≡ syncing → Step C s (record s { pc = stopped })
  client_archives : Step C s (record s { buffer = archive_valid_buffer_parts C s.buffer })
  client_gets :
      Step C s
        (record s { buffer = (get_data C s.buffer).1; given = s.given ++ (get_data C s.buffer).0 })

pub data Reach (C : CircularBuffer ℕ) (adr : ℕ) (name : Name) (shape : Shape) (factor : ℕ)
    : System C → Type 0 where
  start :
      {o : AsyncOutput C}
      → make C adr name shape factor ≡ ok o
      → Reach C adr name shape factor (record { buffer = o; pc = syncing; saved = []; given = [] })
  later :
      {s t : System C}
      → Reach C adr name shape factor s
      → Step C s t
      → Reach C adr name shape factor t
