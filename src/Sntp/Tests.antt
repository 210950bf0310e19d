-- ===== src/Sntp/Tests.antt =====
-- dev_sntp.h at concrete times and messages.
use decom.Base.{
  ℕ, ◌+◌, ◌*◌, ◌%◌, ◌^◌, ◌≤◌, ◌≡◌, refl, true, false, none, List, [], ◌∷◌, length, replicate, arith,
}
use decom.Sntp.Time.{Fixpt, add, is_unset}
use decom.Sntp.Client.{
  Header, Sntp, header_of, get_time, receive, got_time, offset, round_trip, zero_stamp, is_invalid,
}
use decom.Sntp.Arith.{value, IsFixpt}
use decom.Sntp.Offset.{offset-symmetric}
use decom.Sntp.Header.{IsHeader}
use decom.Sntp.Attempts.{silence, get_time-gives_up, answer_counts}

abbrev early : Fixpt
early = record { integer = 1000; fraction = 4294967295 }

abbrev late : Fixpt
late = record { integer = 7; fraction = 5 }

early-IsFixpt : IsFixpt early
early-IsFixpt = record { integer_lt = omega arith; fraction_lt = omega arith }

late-IsFixpt : IsFixpt late
late-IsFixpt = record { integer_lt = omega arith; fraction_lt = omega arith }

carry : add early late ≡ record { integer = 1008; fraction = 4 }
unfolding add
carry = refl

-- An exchange: the server is five seconds ahead, each way takes half a second.
abbrev stamp : ℕ → ℕ → Fixpt
stamp i f = record { integer = i; fraction = f }

abbrev answer : Header
answer = record {
  mode = 36;
  stratum = 1;
  poll = 0;
  precision = 0;
  root_delay = 0;
  root_dispersion = 0;
  ref_id = 0;
  ref_timestamp = stamp 900 1;
  orig_timestamp = stamp 1000 0;
  recv_timestamp = stamp 1005 2147483648;
  send_timestamp = stamp 1005 2147483655;
}

stamp_small : (i f : ℕ) → i ≤ 4294967295 → f ≤ 4294967295 → IsFixpt (stamp i f)
stamp_small i f hi hf = record { integer_lt = omega (arith, hi); fraction_lt = omega (arith, hf) }

offset-symmetric_example :
    (value (offset answer (stamp 1001 7)) ≡ (2 * 21474836480) % 2 ^ 64)
    × (value (round_trip answer (stamp 1001 7)) ≡ (2 * 2147483648) % 2 ^ 64)
offset-symmetric_example =
    offset-symmetric answer (stamp 1001 7) 21474836480 2147483648 7
      (stamp_small 1000 0 (omega arith) (omega arith))
      (stamp_small 1005 2147483648 (omega arith) (omega arith))
      (stamp_small 1005 2147483655 (omega arith) (omega arith))
      (stamp_small 1001 7 (omega arith) (omega arith)) refl refl refl

answer-IsHeader : IsHeader answer
answer-IsHeader = record {
  root_delay_lt = omega arith;
  root_dispersion_lt = omega arith;
  ref_id_lt = omega arith;
  ref_in = stamp_small 900 1 (omega arith) (omega arith);
  orig_in = stamp_small 1000 0 (omega arith) (omega arith);
  recv_in = stamp_small 1005 2147483648 (omega arith) (omega arith);
  send_in = stamp_small 1005 2147483655 (omega arith) (omega arith);
}

abbrev fresh : Sntp
fresh = record {
  ntp_header = answer;
  timer = none;
  rx_ev = false;
  retries = 0;
  dest_timestamp = zero_stamp;
}

abbrev seconds : ℕ → ℕ
seconds time = time

abbrev four_times : List ℕ
four_times = 2000000 ∷ 4000000 ∷ 6000000 ∷ 8000000 ∷ []

get_time-gives_up_example :
    ((silence (get_time true fresh 0).0 four_times).0.rx_ev ≡ true)
    × (length (get_time true fresh 0).1 + length (silence (get_time true fresh 0).0 four_times).1
        ≡ 4)
    × (got_time seconds (silence (get_time true fresh 0).0 four_times).0 9000000
        ≡ ((silence (get_time true fresh 0).0 four_times).0, 0, false))
get_time-gives_up_example = get_time-gives_up true seconds fresh 0 four_times 9000000 (omega arith)

abbrev reply : List ℕ
reply = 36 ∷ replicate 47 1

reply_valid : is_invalid (header_of reply) ≡ false
unfolding is_invalid header_of is_unset
reply_valid = refl

-- An answer to the last request, which is too late.
answer_counts_example :
    ((receive
        (silence (get_time true fresh 0).0 (2000000 ∷ 4000000 ∷ 6000000 ∷ [])).0
        reply
        6100000
        6100000).0.rx_ev
      ≡ true)
    × ((got_time seconds
          (receive
            (silence (get_time true fresh 0).0 (2000000 ∷ 4000000 ∷ 6000000 ∷ [])).0
            reply
            6100000
            6100000).0
          6200000).2
        ≡ false)
answer_counts_example =
    answer_counts true seconds fresh 0 (2000000 ∷ 4000000 ∷ 6000000 ∷ []) reply 6100000 6100000
      6200000 (omega arith) refl reply_valid
