-- ===== src/Protocol/Writer/Respond/Frame.antt =====
-- Every answer is one packet with a good checksum.
use ckb_standalone_debugger.Prelude.{
  ◌≡◌, refl, ◌∙◌, ap, sym, Option, none, some, List, [], ◌∷◌, ◌++◌, append-nil, append_assoc, Bytes,
}
use ckb_standalone_debugger.Prelude.Format.{codes, hex_byte}
use ckb_standalone_debugger.Protocol.Types.{
  ThreadId, was_attached, was_created, StopReason, signal, exited, exited_with_signal,
  thread_exited, no_more_threads, VContFeature, HostIoResult, host_ok, host_error, host_integer,
  host_data, host_stat, Response, empty, response_ok, response_error, text, output, bytes,
  bytes_or_eof, thread, process_type, stopped, search_result, v_cont_features, threads,
  host_io_result, symbol_response,
}
use ckb_standalone_debugger.Protocol.Writer.{
  compute_checksum_incremental, PacketWriter, packet_writer, write, finish, write_thread_id,
  write_hex_data, Memchr, MemchrLaws, write_binary_data,
}
use ckb_standalone_debugger.Protocol.Writer.Binary.{escape, write-write, write_binary_data-escape}
use ckb_standalone_debugger.Protocol.Writer.Respond.{
  BigEndian, write_features, write_threads, write_stop_reason, write_stat, write_host_result,
  write_body, write_response,
}

-- From `w` on, some bytes were written through the packet's writer.
record Wrote (w v : PacketWriter) : Type 0 where
  chunk : Bytes
  same : v ≡ write chunk w

wrote : (b : Bytes) (w : PacketWriter) → Wrote w (write b w)
wrote b w = record { chunk = b; same = refl }

write_empty : (w : PacketWriter) → Wrote w w
unfolding write compute_checksum_incremental
write_empty w = record {
  chunk = [];
  same = ap (λ s. record w { sent = s }) (sym (append-nil w.sent));
}

then-Wrote : {u v w : PacketWriter} → Wrote u v → Wrote v w → Wrote u w
then-Wrote {u} p q = record {
  chunk = p.chunk ++ q.chunk;
  same = q.same ∙ ap (write q.chunk) p.same ∙ write-write p.chunk q.chunk u;
}

write_hex_data-Wrote : (data_ : Bytes) (w : PacketWriter) → Wrote w (write_hex_data data_ w)
unfolding write_hex_data
write_hex_data-Wrote [] w = write_empty w
write_hex_data-Wrote (b ∷ data_) w = then-Wrote (wrote _ w) (write_hex_data-Wrote data_ _)

write_thread_id-Wrote : (id : ThreadId) (w : PacketWriter) → Wrote w (write_thread_id id w)
unfolding write_thread_id
write_thread_id-Wrote id w =
    then-Wrote (wrote _ w) (then-Wrote (wrote _ _) (then-Wrote (wrote _ _) (wrote _ _)))

write_features-Wrote : (fs : List VContFeature) (w : PacketWriter) → Wrote w (write_features fs w)
unfolding write_features
write_features-Wrote [] w = write_empty w
write_features-Wrote (f ∷ fs) w = then-Wrote (wrote _ w) (write_features-Wrote fs _)

write_threads-Wrote : (ids : List ThreadId) (w : PacketWriter) → Wrote w (write_threads ids w)
unfolding write_threads
write_threads-Wrote [] w = write_empty w
write_threads-Wrote (id ∷ ids) w =
    then-Wrote (wrote _ w) (then-Wrote (write_thread_id-Wrote id _) (write_threads-Wrote ids _))

write_stop_reason-Wrote : (r : StopReason) (w : PacketWriter) → Wrote w (write_stop_reason r w)
unfolding write_stop_reason
write_stop_reason-Wrote (signal signo) w = wrote _ w
write_stop_reason-Wrote (exited pid status) w = wrote _ w
write_stop_reason-Wrote (exited_with_signal pid status) w = wrote _ w
write_stop_reason-Wrote (thread_exited id status) w =
    then-Wrote (wrote _ w) (write_thread_id-Wrote id _)
write_stop_reason-Wrote no_more_threads w = wrote _ w

-- The writer went on to one that wrote.
abbrev Written : PacketWriter → Option PacketWriter → Type 0
Written w r = (v : PacketWriter) × (r ≡ some v) × Wrote w v

module _ (m : Memchr) (laws : MemchrLaws m) (be : BigEndian) where
  binary_Written :
      (data_ b : Bytes) (w : PacketWriter) → Written w (write_binary_data m data_ (write b w))
  binary_Written data_ b w = (
    write (escape data_) (write b w),
    write_binary_data-escape m laws data_ (write b w),
    then-Wrote (wrote b w) (wrote _ _),
  )

  write_host_result-Written :
      (r : HostIoResult) (w : PacketWriter) → Written w (write_host_result m be r w)
  unfolding write_host_result
  write_host_result-Written host_ok w = (_, refl, wrote _ w)
  write_host_result-Written (host_error errno) w = (_, refl, wrote _ w)
  write_host_result-Written (host_integer i) w = (_, refl, wrote _ w)
  write_host_result-Written (host_data v) w = binary_Written v _ w
  write_host_result-Written (host_stat stat) w = binary_Written (write_stat be stat) _ w

  write_body-Written : (r : Response) (w : PacketWriter) → Written w (write_body m be r w)
  unfolding write_body
  write_body-Written response_ok w = (_, refl, wrote _ w)
  write_body-Written empty w = (w, refl, write_empty w)
  write_body-Written (response_error val) w = (_, refl, wrote _ w)
  write_body-Written (text s) w = (_, refl, wrote s w)
  write_body-Written (output s) w = (_, refl, then-Wrote (wrote _ w) (write_hex_data-Wrote s _))
  write_body-Written (bytes data_) w = (_, refl, write_hex_data-Wrote data_ w)
  write_body-Written (bytes_or_eof data_ eof) w = binary_Written data_ _ w
  write_body-Written (thread none) w = (_, refl, wrote _ w)
  write_body-Written (thread (some id)) w =
      (_, refl, then-Wrote (wrote _ w) (write_thread_id-Wrote id _))
  write_body-Written (process_type was_attached) w = (_, refl, wrote _ w)
  write_body-Written (process_type was_created) w = (_, refl, wrote _ w)
  write_body-Written (search_result (some addr)) w = (_, refl, wrote _ w)
  write_body-Written (search_result none) w = (_, refl, wrote _ w)
  write_body-Written (stopped r) w = (_, refl, write_stop_reason-Wrote r w)
  write_body-Written (v_cont_features fs) w =
      (_, refl, then-Wrote (wrote _ w) (write_features-Wrote fs _))
  write_body-Written (threads []) w = (_, refl, wrote _ w)
  write_body-Written (threads (id ∷ ids)) w = (
    _,
    refl,
    then-Wrote (wrote _ w) (then-Wrote (write_thread_id-Wrote id _) (write_threads-Wrote ids _)),
  )
  write_body-Written (symbol_response name) w =
      (_, refl, then-Wrote (wrote _ w) (write_hex_data-Wrote name _))
  write_body-Written (host_io_result result) w = write_host_result-Written result w

  -- An answer is `$`, a text, `#` and two hexadecimal digits of the sum of the text modulo 256,
  -- behind what the connection got before; the loops of the writer never run out of fuel.
  pub write_response-Framed :
      (r : Response) (sent : Bytes)
      → (body : Bytes) × (write_response m be r sent
          ≡ some
              (sent ++ (b'$' ∷ (body ++ (b'#' ∷ hex_byte (compute_checksum_incremental body 0))))))
  unfolding write_response write finish packet_writer
  write_response-Framed r sent =
      let (v, e, all) = write_body-Written r (packet_writer (sent ++ codes "$")) in
      (all.chunk, rw (e, write_response, all.same) (ap some (rw (append_assoc, append_assoc) refl)))
