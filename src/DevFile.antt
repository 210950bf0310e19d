-- ===== src/DevFile.antt =====
-- src/dev/dev_file.h: a device that sends files, and writes what it receives to a file. A message is the
-- sequence of its bytes.
use decom.Base.{
  ℕ, zero, suc, ◌-◌, ◌*◌, ◌/◌, ◌%◌, Bool, true, false, not, ◌&&◌, ◌||◌, Option, none, some, List,
  [], ◌∷◌, ◌==◌, ltb, is_empty, if◌then◌else◌,
}
use decom.Layer.{Eid, eid_any, Effect, to_lower, close_lower, Status, tx_done}
use decom.DevFile.Stream.{
  Offset, same_offset, Ifstream, open_in, close_in, seek_end, seek_begin, tellg, get, Ofstream,
  open_out, close_out, put,
}
mod Stream
mod Segment
mod Transfer
mod Padded
mod Tests

-- The data members of class `file`; `joinable` is whether the worker's thread runs, and an event is
-- whether it is set.
pub record DevFile : Type 0 where
  pub joinable : Bool
  pub worker_end : Bool
  pub tx_ev : Bool
  pub rx_file : Ofstream
  pub rx_ignore_more : Bool
  pub tx_file : Ifstream
  pub tx_eid : Eid
  pub tx_msgsize : ℕ
  pub tx_filesize : Offset
  pub tx_filesent : Offset
  pub tx_lineend : Bool
  pub tx_err : Bool

-- The constructor.
unfoldable pub init : DevFile
init = record {
  joinable = false;
  worker_end = false;
  tx_ev = false;
  rx_file = record { is_open = false; content = []; fail = false };
  rx_ignore_more = false;
  tx_file = record { is_open = false; content = []; rest = []; eof = false; fail = false };
  tx_eid = eid_any;
  tx_msgsize = 0;
  tx_filesize = some 0;
  tx_filesent = some 0;
  tx_lineend = false;
  tx_err = false;
}

-- `open`: `lower` is the lower layer's answer. The destructor of a thread that still runs ends the
-- program.
unfoldable pub open_device : (lower : Bool) → DevFile → Eid → Option (DevFile × Bool)
open_device lower s id =
    if s.joinable
    then none
    else some (record s { tx_eid = id; worker_end = false; joinable = true }, lower)

-- `close` waits for the end of the worker, which takes one more round; to wait for a thread that does
-- not run is an error.
unfoldable pub close : DevFile → Eid → Option (DevFile × List Effect)
close s id =
    if not s.joinable
    then none
    else some (
      record s {
        tx_file = (if s.tx_file.is_open then close_in s.tx_file else s.tx_file);
        rx_file = (if s.rx_file.is_open then close_out s.rx_file else s.rx_file);
        worker_end = true;
        tx_ev = false;
        joinable = false;
      },
      close_lower id ∷ [],
    )

unfoldable pub read_end : DevFile → DevFile × Bool
read_end s =
    if s.rx_file.is_open then (record s { rx_file = close_out s.rx_file }, true) else (s, false)

unfoldable pub receive : DevFile → List ℕ → Eid → (more : Bool) → DevFile
receive s bytes id more =
    let s' : DevFile =
      if s.rx_file.is_open then record s { rx_file = put bytes s.rx_file } else s in
    if not s.rx_ignore_more && not more then (read_end s').0 else s'

abbrev pub is_tx_done : Status → Bool
is_tx_done tx_done = true
is_tx_done code = false

unfoldable pub indication : DevFile → Status → Eid → DevFile
indication s code id =
    if s.tx_file.is_open && is_tx_done code
    then record s { tx_ev = true }
    else record s { tx_err = true; tx_file = close_in s.tx_file }

-- The loop that reads a segment: `c` is the last byte.
unfoldable pub read_buffer : (count : ℕ) → (lineend : Bool) → (c : ℕ) → Ifstream → List ℕ × Ifstream
read_buffer zero lineend c f = ([], f)
read_buffer (suc n) lineend c f =
    let (x, f') = get f in
    let (xs, f'') = read_buffer n lineend x f' in
    if not lineend || not (c == 10) then (x ∷ xs, f'') else ([], f)

-- The smaller one of the size of the file, where -1 is the largest size, and that of a message.
unfoldable pub msgsize : DevFile → ℕ
msgsize s = elim s.tx_filesize [
  | none ↦ s.tx_msgsize
  | some n ↦ if ltb s.tx_msgsize n then s.tx_msgsize else n
]

-- What `send_segment` does with the bytes that it has read; `lower` is the lower layer's answer.
unfoldable pub send_buffer :
    (lower : Bool) → DevFile → List ℕ → (more : Bool) → DevFile × List Effect × Bool
send_buffer lower s bytes more =
    if is_empty bytes
    then (s, [], true)
    else if lower
    then (s, to_lower bytes s.tx_eid more ∷ [], true)
    else (
      record s { tx_err = true; tx_file = close_in s.tx_file },
      to_lower bytes s.tx_eid more ∷ [],
      false,
    )

-- `send_segment` with a file to read from.
unfoldable pub send_next : (lower : Bool) → DevFile → DevFile × List Effect × Bool
send_next lower s =
    let (bytes, f) = read_buffer (msgsize s) s.tx_lineend 0 s.tx_file in
    let sent = tellg f in
    let more = not (same_offset sent s.tx_filesize) in
    send_buffer lower (record s { tx_file = (if more then f else close_in f); tx_filesent = sent })
      bytes more

unfoldable pub is_zero : Offset → Bool
is_zero none = false
is_zero (some n) = n == 0

unfoldable pub send_segment : (lower : Bool) → DevFile → DevFile × List Effect × Bool
send_segment lower s =
    if s.tx_file.eof || (not s.tx_file.is_open || is_zero s.tx_filesize)
    then (record s { tx_file = close_in s.tx_file }, [], false)
    else send_next lower s

-- A round of `worker`: nothing happens while it waits.
unfoldable pub worker : (lower : Bool) → DevFile → DevFile × List Effect
worker lower s =
    let s' : DevFile = record s { tx_ev = false } in
    let (s'', out, ok) = send_segment lower s' in
    if not s.joinable || not s.tx_ev
    then (s, [])
    else if s.tx_file.is_open
    then (s'', out)
    else (s', [])

-- `write` behind the opening of the file.
unfoldable pub write_opened : (lower : Bool) → DevFile → DevFile × List Effect × Bool
write_opened lower s =
    let size = tellg (seek_end s.tx_file) in
    let s' : DevFile = record s { tx_filesize = size; tx_file = seek_begin (seek_end s.tx_file) } in
    if is_zero size
    then (record s' { tx_file = close_in s'.tx_file }, [], false)
    else send_segment lower s'

-- `write`: `found` is what the file holds, if it can be opened.
unfoldable pub write :
    (found : Option (List ℕ))
    → (lower : Bool) → DevFile
    → (msgsize : ℕ) → (lineend : Bool) → DevFile × List Effect × Bool
write found lower s size lineend =
    let s' : DevFile = record s {
      tx_msgsize = size;
      tx_lineend = lineend;
      tx_filesent = some 0;
      tx_err = false;
      tx_file = open_in found s.tx_file;
    } in
    if not s'.tx_file.is_open then (s', [], false) else write_opened lower s'

-- `read`: `held` is what the file holds before, if it can be opened.
unfoldable pub read :
    (held : Option (List ℕ)) → DevFile → (append ignore_more : Bool) → DevFile × Bool
read held s append ignore_more =
    let f = open_out held append s.rx_file in
    (record s { rx_ignore_more = ignore_more; rx_file = f }, f.is_open)

-- `write_progress`: an offset of -1 makes a negative quotient, cast to a byte.
unfoldable pub percent : (sent size : Offset) → ℕ
percent none none = 100
percent none (some n) = (256 - 100 / n) % 256
percent (some k) none = (256 - k * 100 % 256) % 256
percent (some k) (some n) = k * 100 / n % 256

unfoldable pub write_progress : DevFile → ℕ
write_progress s =
    if s.tx_err || is_zero s.tx_filesize then 255 else percent s.tx_filesent s.tx_filesize
