-- ===== src/DevFile/Tests.antt =====
-- dev_file.h at concrete files.
use decom.Base.{◌≡◌, refl, true, false, none, some, [], ◌∷◌, arith}
use decom.Layer.{eid_any}
use decom.DevFile.{DevFile, init, open_device, close, write_progress, indication}
use decom.DevFile.Transfer.{rounds, send_file, hear, reading, complete, send_file-hear}
use decom.DevFile.Padded.{send_file_padded}
use decom.Layer.{tx_done}

-- A device that is open and sends nothing.
abbrev idle : DevFile
idle = record init { joinable = true }

opens : open_device true init eid_any ≡ some (idle, true)
unfolding open_device init
opens = refl

-- A device that was never opened cannot be closed.
close-init : close init eid_any ≡ none
unfolding close init
close-init = refl

send_file-hear_example :
    (hear (reading init (9 ∷ [])) (send_file (1 ∷ 2 ∷ 3 ∷ 4 ∷ []) idle 2 1).1
      ≡ complete init (9 ∷ 1 ∷ 2 ∷ 3 ∷ 4 ∷ []))
    × ((send_file (1 ∷ 2 ∷ 3 ∷ 4 ∷ []) idle 2 1).0.tx_file.is_open ≡ false)
    × ((send_file (1 ∷ 2 ∷ 3 ∷ 4 ∷ []) idle 2 1).0.tx_err ≡ false)
    × ((send_file (1 ∷ 2 ∷ 3 ∷ 4 ∷ []) idle 2 1).0.tx_filesent
        ≡ (send_file (1 ∷ 2 ∷ 3 ∷ 4 ∷ []) idle 2 1).0.tx_filesize)
    × (write_progress (indication (send_file (1 ∷ 2 ∷ 3 ∷ 4 ∷ []) idle 2 1).0 tx_done eid_any)
        ≡ 255)
unfolding init
send_file-hear_example =
    send_file-hear idle init 2 (9 ∷ []) (1 ∷ 2 ∷ []) ((3 ∷ 4 ∷ []) ∷ []) (omega arith)
      (refl, (refl, tt)) refl refl

send_file_padded_example :
    (hear (reading init []) (send_file (1 ∷ 2 ∷ 3 ∷ 4 ∷ 5 ∷ []) idle 3 1).1
      ≡ reading init (1 ∷ 2 ∷ 3 ∷ 4 ∷ 5 ∷ 255 ∷ []))
    × ((send_file (1 ∷ 2 ∷ 3 ∷ 4 ∷ 5 ∷ []) idle 3 1).0.tx_file.is_open ≡ true)
    × ((send_file (1 ∷ 2 ∷ 3 ∷ 4 ∷ 5 ∷ []) idle 3 1).0.tx_filesent ≡ none)
    × ((rounds 1 (send_file (1 ∷ 2 ∷ 3 ∷ 4 ∷ 5 ∷ []) idle 3 1).0).1 ≡ [])
    × ((rounds 1 (send_file (1 ∷ 2 ∷ 3 ∷ 4 ∷ 5 ∷ []) idle 3 1).0).0.tx_file.is_open ≡ false)
unfolding init
send_file_padded_example =
    send_file_padded idle init 3 [] (1 ∷ 2 ∷ 3 ∷ []) [] (4 ∷ 5 ∷ []) (omega arith) (omega arith)
      (refl, tt) refl refl
