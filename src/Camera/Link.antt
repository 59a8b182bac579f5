-- ===== src/Camera/Link.antt =====
-- camera-link.h: three slots of records, each behind a stamp that is odd while the producer writes. A
-- store of one atomic variable is a function on a slot. A word holds eight bytes, read at an index
-- below 8; a record is read at an index below its size.
pub mod Concurrent
pub mod Snapshot
pub mod Words
pub mod Delivery
mod Tests
use plank.Common.{
  ℕ, zero, suc, ◌+◌, ◌-◌, ◌*◌, ◌/◌, ◌%◌, ◌^◌, Bool, true, false, not, ◌||◌, ◌&&◌, ltb, leb, ◌==◌,
  ◌!=◌, if◌then◌else◌,
}
use plank.Transport.Camera.{header_bytes, max_frame_bytes}

abbrev pub link_version : ℕ
link_version = 2

abbrev pub slot_count : ℕ
slot_count = 3

abbrev pub record_bytes : ℕ
record_bytes = header_bytes + max_frame_bytes

abbrev pub max_age_ns : ℕ
max_age_ns = 150_000_000

abbrev pub uint64_max : ℕ
uint64_max = 0xffff_ffff_ffff_ffff

abbrev pub int64_max : ℕ
int64_max = 0x7fff_ffff_ffff_ffff

-- PLANKCameraSlot
pub record Slot : Type 0 where
  pub stamp : ℕ
  pub size : ℕ
  pub host_time : ℕ
  pub arrived : ℕ
  pub words : ℕ → ℕ → ℕ

-- PLANKCameraLink
pub record Link : Type 0 where
  pub version : ℕ
  pub published : ℕ
  pub key_request : ℕ
  pub slots : ℕ → Slot

-- `structure` is sizeof(PLANKCameraLink).
pub link_bytes : ℕ → ℕ → ℕ
link_bytes structure page =
    if page != 0 && leb page (uint64_max - structure)
    then (structure + page - 1) / page * page
    else 0

pub init : Link
init = record {
  version = link_version;
  published = 0;
  key_request = 0;
  slots = λ k. record { stamp = 0; size = 0; host_time = 0; arrived = 0; words = λ w j. 0 };
}

-- The stores of a write into its slot.
unfoldable pub open_slot : ℕ → Slot → Slot
open_slot serial s = record s { stamp = serial * 2 + 1 }

unfoldable pub store_size : ℕ → Slot → Slot
store_size size s = record s { size = size }

unfoldable pub store_host_time : ℕ → Slot → Slot
store_host_time time s = record s { host_time = time }

unfoldable pub store_arrived : ℕ → Slot → Slot
store_arrived time s = record s { arrived = time }

unfoldable pub store_word : ℕ → (ℕ → ℕ) → Slot → Slot
store_word index word s =
    let words = s.words in record s { words = λ w. if w == index then word else words w }

unfoldable pub close_slot : ℕ → Slot → Slot
close_slot serial s = record s { stamp = serial * 2 }

-- The bytes of a record from an offset on, as one word; the rest of the word is 0.
pub word_at : (ℕ → ℕ) → ℕ → ℕ → ℕ → ℕ
word_at bytes size offset j = if ltb j 8 && ltb (offset + j) size then bytes (offset + j) else 0

-- The loop of a write, from the word with index i on with n words left.
pub store_words : (ℕ → ℕ) → ℕ → ℕ → ℕ → Slot → Slot
store_words bytes size i zero s = s
store_words bytes size i (suc n) s =
    store_words bytes size (suc i) n (store_word i (word_at bytes size (8 * i)) s)

abbrev pub word_count : ℕ → ℕ
word_count size = (size + 7) / 8

pub fill_slot : ℕ → (ℕ → ℕ) → ℕ → ℕ → ℕ → Slot → Slot
fill_slot serial bytes size host_time arrived s =
    let opened = open_slot serial s in
    let headed = store_arrived arrived (store_host_time host_time (store_size size opened)) in
    close_slot serial (store_words bytes size 0 (word_count size) headed)

-- The result, the serial number and the link; `has_all` says that no pointer is null.
pub write_timed : Link → ℕ → Bool → (ℕ → ℕ) → ℕ → ℕ → ℕ → Bool × ℕ × Link
write_timed link serial has_all bytes size host_time arrived =
    let next = serial + 1 in
    let index = serial % slot_count in
    let filled = fill_slot next bytes size host_time arrived (link.slots index) in
    if not has_all
      || leb size header_bytes
      || ltb record_bytes size
      || host_time == 0
      || arrived == 0
      || leb (uint64_max / 2 - 1) serial
    then (false, serial, link)
    else (
      true,
      next,
      record link { slots = λ k. if k == index then filled else link.slots k; published = next },
    )

pub write : Link → ℕ → Bool → (ℕ → ℕ) → ℕ → ℕ → Bool × ℕ × Link
write link serial has_all bytes size host_time =
    write_timed link serial has_all bytes size host_time host_time

-- What a read answers: 1, 0 and -1.
pub data Found : Type 0 where
  frame : Found
  empty : Found
  refused : Found

-- What is behind the pointers of a read.
pub record Outputs : Type 0 where
  pub cursor : ℕ
  pub bytes : ℕ → ℕ
  pub size : ℕ
  pub host_time : ℕ
  pub arrival : ℕ

-- The loop of a read, from the word with index i on with n words left. `memory t` is the link at the
-- load with the number t.
pub load_words : (ℕ → Link) → ℕ → ℕ → ℕ → ℕ → (ℕ → ℕ) → ℕ → ℕ
load_words memory index count i zero bytes = bytes
load_words memory index count i (suc n) bytes =
    let word = ((memory (5 + i)).slots index).words i in
    load_words memory index count (suc i) n
      (λ k. if leb (8 * i) k && ltb k (8 * i + 8) && ltb k count then word (k - 8 * i) else bytes k)

-- The test of what the slot says of its record.
pub bad_record : ℕ → ℕ → ℕ → ℕ → ℕ → Bool
bad_record count capacity time arrived now =
    leb count header_bytes
    || ltb record_bytes count
    || ltb capacity count
    || time == 0
    || ltb int64_max time
    || arrived == 0
    || ltb now arrived
    || ltb max_age_ns (now - arrived)
    || (if ltb now time then ltb 100_000_000 (time - now) else ltb max_age_ns (now - time))

-- The read of one slot, from what it has loaded.
pub take : ℕ → ℕ → ℕ → ℕ → ℕ → ℕ → (ℕ → ℕ) → ℕ → Bool → ℕ → Outputs → Found × Outputs
take next stamp count time arrived capacity copied again has_arrival now o =
    if stamp != next * 2
    then (refused, o)
    else if bad_record count capacity time arrived now
    then (refused, o)
    else if again != next * 2
    then (refused, record o { bytes = copied })
    else (
      frame,
      record o {
        bytes = copied;
        size = count;
        host_time = time;
        arrival = if has_arrival then arrived else o.arrival;
      },
    )

-- A reader's loads see `memory` at their numbers: 0 is what is published, 1 to 4 the fields of the slot,
-- then its words, then its stamp again.
pub read_timed : (ℕ → Link) → Bool → ℕ → Bool → ℕ → Outputs → Found × Outputs
read_timed memory has_all capacity has_arrival now o =
    let published = (memory 0).published in
    let next = o.cursor + 1 in
    let index = o.cursor % slot_count in
    let cleared = record o { size = 0; host_time = 0 } in
    let moved = record cleared { cursor = next } in
    let stamp = ((memory 1).slots index).stamp in
    let count = ((memory 2).slots index).size in
    let time = ((memory 3).slots index).host_time in
    let arrived = ((memory 4).slots index).arrived in
    let copied = load_words memory index count 0 (word_count count) o.bytes in
    let again = ((memory (5 + word_count count)).slots index).stamp in
    let taken = take next stamp count time arrived capacity copied again has_arrival now moved in
    if not has_all
    then (refused, o)
    else if published == o.cursor
    then (empty, cleared)
    else if ltb published o.cursor || leb (uint64_max / 2) published
    then (refused, cleared)
    else if ltb slot_count (published - o.cursor)
    then (refused, record cleared { cursor = published - 1 })
    else taken

pub read : (ℕ → Link) → Bool → ℕ → ℕ → Outputs → Found × Outputs
read memory has_all capacity now o = read_timed memory has_all capacity false now o
