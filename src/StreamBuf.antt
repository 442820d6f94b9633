-- ===== src/StreamBuf.antt =====
-- `Treiber/lib/socket.c` and `Treiber/lib/socket.h`: the packets of a TCP stream, each with its
-- length in front of it. `buf_init`, `buf` and `next` are views of one memory, which is that of
-- `buf`; port sharing is not compiled in. `none` is a failed assertion or a fatal message.
pub mod Packet
mod Tests
use treiber.Base.{
  ℕ, ◌+◌, Bool, true, false, not, ◌&&◌, ◌||◌, Option, none, some, List, if◌then◌else◌,
}
use treiber.Base.Int.{ℤ, pos, negsuc, pos_part, ◌+ℤ◌, ◌-ℤ◌, ltb_ℤ, leb_ℤ}
use treiber.Buffer.{
  Buffer, alloc_buf, buf_init, buf_reset, buf_safe, buf_defined, free_buf, size_of_int,
}
use treiber.Buffer.Access.{buf_read, buf_copy, buf_copy_excess, value_16, store}
use treiber.Buffer.Lines.{eq_ℤ}

-- The field `buf_init` of the source is `initial` here. `len` is -1 if not yet known.
pub record StreamBuf : Type 0 where
  pub initial : Buffer
  pub residual : Buffer
  pub maxlen : ℤ
  pub residual_fully_formed : Bool
  pub buf : Buffer
  pub next : Buffer
  pub len : ℤ
  pub error : Bool

stream_buf_reset : StreamBuf → StreamBuf
stream_buf_reset sb = record sb {
  residual_fully_formed = false;
  buf = record sb.initial { block = sb.buf.block };
  next = buf_reset sb.next;
  len = negsuc 0;
}

-- `next` is what the structure held before.
stream_buf_init : Buffer → Buffer → Option StreamBuf
unfolding stream_buf_reset
stream_buf_init buf next = elim (alloc_buf (size_of_int buf.len)) [
  | none ↦ none
  | some residual ↦ some (
      stream_buf_reset (record {
        initial = record buf { len = pos 0 };
        residual = residual;
        maxlen = buf.len;
        residual_fully_formed = false;
        buf = buf;
        next = next;
        len = negsuc 0;
        error = false;
      }))
]

stream_buf_set_next : StreamBuf → Option StreamBuf
stream_buf_set_next sb =
    let want : ℤ = (if leb_ℤ (pos 0) sb.len then sb.len else sb.maxlen) -ℤ sb.buf.len in
    let next = record sb.buf { offset = sb.buf.offset + pos_part sb.buf.len; len = want } in
    if ltb_ℤ (pos 0) want && buf_safe sb.buf want then some (record sb { next = next }) else none

stream_buf_get_final : StreamBuf → Option Buffer
stream_buf_get_final sb = if buf_defined sb.buf then some sb.buf else none

stream_buf_get_next : StreamBuf → Option Buffer
stream_buf_get_next sb = if buf_defined sb.next then some sb.next else none

-- The end of `stream_buf_added`: is the incoming packet fully read? A residual is part of the next
-- packet.
pub added_end : StreamBuf → Option (Bool × StreamBuf)
unfolding stream_buf_set_next
added_end sb =
    if ltb_ℤ (pos 0) sb.len && leb_ℤ sb.len sb.buf.len
    then (let (ready, residual) = buf_init sb.residual (pos 0) in
        let (moved, residual', buf') = buf_copy_excess residual sb.buf sb.len in
        if not ready
        then none
        else if ltb_ℤ sb.len sb.buf.len
        then if moved then some (true, record sb { residual = residual'; buf = buf' }) else none
        else some (true, record sb { residual = residual }))
    else elim (stream_buf_set_next sb) [ none ↦ none | some sb' ↦ some (false, sb') ]

pub stream_buf_added : StreamBuf → ℤ → Option (Bool × StreamBuf)
unfolding added_end stream_buf_reset
stream_buf_added sb₀ length_added =
    let sb : StreamBuf =
      if ltb_ℤ (pos 0) length_added
      then record sb₀ { buf = record sb₀.buf { len = sb₀.buf.len +ℤ length_added } }
      else sb₀ in
    let (net_size, buf') = buf_read sb.buf (pos 2) in
    if ltb_ℤ sb.len (pos 0) && leb_ℤ (pos 2) sb.buf.len
    then elim net_size [
      | none ↦ none
      | some bytes ↦
          let n : ℤ = pos (value_16 bytes) in
          let known = record sb { buf = buf'; len = n } in
          if ltb_ℤ n (pos 1) || ltb_ℤ sb.maxlen n
          then some (false, record (stream_buf_reset known) { error = true })
          else added_end known
    ]
    else added_end sb

-- The first part of `stream_buf_read_setup_dowork`.
take_residual : StreamBuf → Option StreamBuf
unfolding stream_buf_added
take_residual sb =
    if not (eq_ℤ sb.residual.len (pos 0)) && not sb.residual_fully_formed
    then (let (copied, buf') = buf_copy sb.buf sb.residual in
        let (ready, residual') = buf_init sb.residual (pos 0) in
        if not copied || not ready
        then none
        else elim (stream_buf_added (record sb { buf = buf'; residual = residual' }) (pos 0)) [
          | none ↦ none
          | some (full, sb') ↦ some (record sb' { residual_fully_formed = full })
        ])
    else some sb

stream_buf_read_setup_dowork : StreamBuf → Option (Bool × StreamBuf)
unfolding take_residual stream_buf_set_next
stream_buf_read_setup_dowork sb = elim (take_residual sb) [
  | none ↦ none
  | some sb' ↦
      if sb'.residual_fully_formed
      then some (false, sb')
      else elim (stream_buf_set_next sb') [ none ↦ none | some sb'' ↦ some (true, sb'') ]
]

stream_buf_close : StreamBuf → StreamBuf
stream_buf_close sb = record sb { residual = free_buf sb.residual }

-- What `recv` stores into the memory at `next`.
receive : List ℕ → StreamBuf → StreamBuf
receive bytes sb = record sb { buf = store sb.next.offset bytes sb.buf }

-- The end of `link_socket_read_tcp` for a complete packet.
finish_read : StreamBuf → Option (ℤ × Buffer × Bool × StreamBuf)
unfolding stream_buf_get_final stream_buf_reset
finish_read sb = elim (stream_buf_get_final sb) [
  | none ↦ none
  | some final ↦ some (final.len, final, false, stream_buf_reset sb)
]

-- The answer of `recv`, with the bytes that it stores if it is positive: the result, the packet in
-- `*buf`, `stream_reset` and the new state. The source without `_WIN32`.
link_socket_read_tcp : StreamBuf → ℤ → List ℕ → Buffer → Option (ℤ × Buffer × Bool × StreamBuf)
unfolding receive stream_buf_added finish_read
link_socket_read_tcp sb received bytes buf =
    if sb.residual_fully_formed then finish_read sb else elim (stream_buf_get_next sb) [
      | none ↦ none
      | some frag ↦
          if leb_ℤ received (pos 0)
          then some (received, record buf { len = received }, eq_ℤ received (pos 0), sb)
          else elim (stream_buf_added (receive bytes sb) received) [
            | none ↦ none
            | some (full, sb') ↦
                if full
                then finish_read sb'
                else some (pos 0, record buf { len = pos 0 }, false, sb')
          ]
    ]
