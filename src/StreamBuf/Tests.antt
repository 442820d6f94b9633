-- ===== src/StreamBuf/Tests.antt =====
-- Theorems on the packets of a stream at concrete inputs.
use treiber.Base.{◌≡◌, refl, true, false, some, List, ℕ, [], ◌∷◌, ◌++◌, arith, drop}
use treiber.Base.Int.{pos, negsuc}
use treiber.Buffer.Rep.{rep}
use treiber.Buffer.Access.{bytes_16}
use treiber.StreamBuf.{StreamBuf, stream_buf_added}
use treiber.StreamBuf.Packet.{added_packet}

abbrev ab : List ℕ
ab = b'a' ∷ b'b' ∷ []

abbrev room : List ℕ
room = 0 ∷ 0 ∷ 0 ∷ []

-- Three of the five bytes are there: the length of a packet of two bytes and its first byte.
abbrev waiting : StreamBuf
waiting = record {
  initial = rep [] [] (0 ∷ 0 ∷ 0 ∷ 0 ∷ 0 ∷ []);
  residual = rep [] [] room;
  maxlen = pos 3;
  residual_fully_formed = false;
  buf = record (rep [] (bytes_16 2 ++ (ab ++ (7 ∷ []))) []) { len = pos 3 };
  next = rep [] [] [];
  len = negsuc 0;
  error = false;
}

added_packet_example :
    stream_buf_added waiting (pos 2)
    ≡ some (
      true,
      record waiting {
        buf = rep ([] ++ bytes_16 2) ab ((7 ∷ []) ++ []);
        residual = rep [] (7 ∷ []) (drop 1 room);
        len = pos 2;
      },
    )
added_packet_example =
    added_packet waiting [] ab (7 ∷ []) [] room 2 3 refl (omega arith) refl refl refl (omega arith)
      (omega arith) (omega arith) (omega arith)
