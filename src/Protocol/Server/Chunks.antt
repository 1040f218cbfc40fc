-- ===== src/Protocol/Server/Chunks.antt =====
-- How the stream is cut into reads does not matter.
use ckb_standalone_debugger.Prelude.{
  ℕ, zero, suc, ◌+◌, ◌<◌, ◌≤◌, ◌≡◌, refl, sym, ap, ◌∙◌, Bool, Option, none, some, List, [], ◌∷◌,
  ◌++◌, append-nil, append_assoc, Bytes, length, drop, le→ltb-false, arith, Option-cases, inl, inr,
  length-append, length-drop,
}
use ckb_standalone_debugger.Protocol.Types.{Packet, ack, nack, interrupt, packet_data}
use ckb_standalone_debugger.Protocol.Nom.Documented.{NomLaws}
use ckb_standalone_debugger.Protocol.Parser.Packets.{run_parser}
use ckb_standalone_debugger.Protocol.Parser.Packets.Frames.{run_parser-append, run_parser_bounds}
use ckb_standalone_debugger.Protocol.Server.{
  Session, Served, served, crashed, never, served_then, Server, after_data, handle_frame, drain,
  process_packets_from, max_packet_size,
}

module _ {S : Type 0} where
  served_then_assoc :
      (r : Served S) (f g : Session S → Served S)
      → served_then (served_then r f) g ≡ served_then r (λ c. served_then (f c) g)
  served_then_assoc (served c) f g = refl
  served_then_assoc crashed f g = refl
  served_then_assoc never f g = refl

  served_then_ext :
      (r : Served S) (f g : Session S → Served S)
      → ((c : Session S) → r ≡ served c → f c ≡ g c)
      → served_then r f ≡ served_then r g
  served_then_ext (served c) f g h = h c refl
  served_then_ext crashed f g h = refl
  served_then_ext never f g h = refl

  served_then-served :
      (r : Served S) (f : Session S → Served S) {c' : Session S}
      → served_then r f ≡ served c'
      → (c : Session S) × (f c ≡ served c')
  served_then-served (served c) f e = (c, e)
  served_then-served crashed f e = cc
  served_then-served never f e = cc

  -- Another buffer in the same session.
  abbrev pub with_buf : Bytes → Session S → Session S
  with_buf buf c = record c { buf = buf }

-- The stream that the reads give, and reads of a byte at least.
abbrev pub concat : List Bytes → Bytes
concat [] = []
concat (bytes ∷ reads) = bytes ++ concat reads

abbrev pub NonEmpty : List Bytes → Type 0
NonEmpty [] = Unit
NonEmpty (bytes ∷ reads) = (0 < length bytes) × NonEmpty reads

drop-append : (n : ℕ) (xs ys : Bytes) → n ≤ length xs → drop n (xs ++ ys) ≡ drop n xs ++ ys
drop-append zero xs ys h = refl
drop-append (suc n) [] ys h = absurd (omega arith)
drop-append (suc n) (x ∷ xs) ys h = drop-append n xs ys (omega arith)

module _ {S : Type 0} (server : Server S) (laws : NomLaws server.nom) where
  after_data-with_buf :
      (r : Option (Option (Bool × Bytes) × S)) (buf : Bytes) (c : Session S)
      → after_data server (with_buf buf c) r
        ≡ served_then (after_data server c r) (λ c'. served (with_buf buf c'))
  after_data-with_buf (some (some x, s)) buf c = refl
  after_data-with_buf (some (none, s)) buf c = refl
  after_data-with_buf none buf c = refl

  -- The buffer of a session plays no part in the turn of a packet.
  handle_frame-with_buf :
      (found : Packet) (buf : Bytes) (c : Session S)
      → handle_frame server found (with_buf buf c)
        ≡ served_then (handle_frame server found c) (λ c'. served (with_buf buf c'))
  unfolding handle_frame
  handle_frame-with_buf (packet_data data_ checksum) buf c = after_data-with_buf _ buf c
  handle_frame-with_buf ack buf c = refl
  handle_frame-with_buf nack buf c = refl
  handle_frame-with_buf interrupt buf c = refl

  drain-zero : (c : Session S) → drain server zero c ≡ never
  unfolding drain
  drain-zero c = refl

  pub drain-none :
      (fuel : ℕ) (c : Session S)
      → run_parser server.nom c.buf ≡ none
      → drain server (suc fuel) c ≡ served c
  unfolding drain
  drain-none fuel c e = rw (e, drain) refl

  pub drain-some :
      (fuel : ℕ) (c : Session S) {len : ℕ} {found : Packet}
      → run_parser server.nom c.buf ≡ some (len, found)
      → drain server (suc fuel) c
        ≡ served_then
            (handle_frame server found c)
            (λ c'. drain server fuel (with_buf (drop len c.buf) c'))
  unfolding drain
  drain-some fuel c e = rw (e, drain) refl

  -- With rounds enough their number does not matter.
  drain_fuel :
      (f g : ℕ) (c : Session S)
      → length c.buf < f
      → length c.buf < g
      → drain server f c ≡ drain server g c
  drain_fuel zero g c h k = absurd (omega arith)
  drain_fuel (suc f) zero c h k = absurd (omega arith)
  drain_fuel (suc f) (suc g) c h k = elim (Option-cases (run_parser server.nom c.buf)) [
    | inl e ↦ drain-none f c e ∙ sym (drain-none g c e)
    | inr ((len, found), e) ↦
        let (least, most) = run_parser_bounds server.nom laws c.buf e in
        drain-some f c e
        ∙ served_then_ext (handle_frame server found c) _ _ (λ c' same.
          drain_fuel f g (with_buf (drop len c.buf) c') (omega (arith, length-drop len c.buf))
            (omega (arith, length-drop len c.buf)))
        ∙ sym (drain-some g c e)
  ]

  shorter_self :
      (c c' : Session S) → ◌≡◌ {A = Served S} (served c) (served c') → length c'.buf ≤ length c.buf
  shorter_self c c' e = ground arith

  -- What is left in the buffer is no longer than what was there.
  drain_shorter :
      (f : ℕ) (c c' : Session S) → drain server f c ≡ served c' → length c'.buf ≤ length c.buf
  drain_shorter zero c c' e = cc (drain-zero c)
  drain_shorter (suc f) c c' e = elim (Option-cases (run_parser server.nom c.buf)) [
    | inl q ↦ shorter_self c c' (sym (drain-none f c q) ∙ e)
    | inr ((len, found), q) ↦
        let (c'', later) =
          served_then-served (handle_frame server found c) _ (sym (drain-some f c q) ∙ e) in
        omega
          (arith, drain_shorter f (with_buf (drop len c.buf) c'') c' later, length-drop len c.buf)
  ]

  abbrev drained : Session S → Served S
  drained c = drain server (suc (length c.buf)) c

  -- The packets of a buffer, and then those of what is left with more behind it.
  drain-append :
      (f : ℕ) (c : Session S) (more : Bytes)
      → length c.buf < f
      → drained (with_buf (c.buf ++ more) c)
        ≡ served_then (drain server f c) (λ c'. drained (with_buf (c'.buf ++ more) c'))
  drain-append zero c more h = absurd (omega arith)
  drain-append (suc f) c more h = elim (Option-cases (run_parser server.nom c.buf)) [
    | inl e ↦ rw (drain-none f c e) refl
    | inr ((len, found), e) ↦
        let (least, most) = run_parser_bounds server.nom laws c.buf e in
        let next : Session S → Served S =
          λ c'. drain server (length (c.buf ++ more)) (with_buf (drop len (c.buf ++ more)) c') in
        let later : Session S → Served S = λ c'. drained (with_buf (c'.buf ++ more) c') in
        drain-some _ (with_buf (c.buf ++ more) c) (run_parser-append server.nom laws c.buf more e)
        ∙ ap (λ r. served_then r next) (handle_frame-with_buf found (c.buf ++ more) c)
        ∙ served_then_assoc (handle_frame server found c) _ _
        ∙ served_then_ext (handle_frame server found c) _ _ (λ c' same.
          ap (λ b. drain server (length (c.buf ++ more)) (with_buf b c'))
            (drop-append len c.buf more most)
          ∙ drain_fuel _ _ (with_buf (drop len c.buf ++ more) c')
              (omega (
                arith,
                length-append (drop len c.buf) more,
                length-append c.buf more,
                length-drop len c.buf,
              ))
              (omega arith)
          ∙ drain-append f (with_buf (drop len c.buf) c') more
              (omega (arith, length-drop len c.buf)))
        ∙ sym (served_then_assoc (handle_frame server found c) _ _)
        ∙ ap (λ r. served_then r later) (sym (drain-some f c e))
  ]

  -- A read that fits into the buffer.
  pub process_read :
      (b : ℕ) (bytes : Bytes) (reads : List Bytes) (c : Session S)
      → length c.buf + length (b ∷ bytes) ≤ max_packet_size
      → process_packets_from server ((b ∷ bytes) ∷ reads) c
        ≡ served_then
            (drained (with_buf (c.buf ++ b ∷ bytes) c))
            (process_packets_from server reads)
  unfolding process_packets_from
  process_read b bytes reads c h =
      rw
        (le→ltb-false max_packet_size (length (c.buf ++ b ∷ bytes))
          (omega (arith, length-append c.buf (b ∷ bytes))))
        refl

  -- Two reads that follow one another are as good as one.
  process_merged :
      (a : ℕ) (xs : Bytes) (b : ℕ) (ys : Bytes) (reads : List Bytes) (c : Session S)
      → length c.buf + (length (a ∷ xs) + length (b ∷ ys)) ≤ max_packet_size
      → process_packets_from server ((a ∷ xs) ∷ (b ∷ ys) ∷ reads) c
        ≡ process_packets_from server ((a ∷ xs ++ b ∷ ys) ∷ reads) c
  process_merged a xs b ys reads c h =
      let first = with_buf (c.buf ++ a ∷ xs) c in
      let rest : Session S → Served S = process_packets_from server reads in
      let both : Session S → Served S = λ c'. drained (with_buf (c'.buf ++ b ∷ ys) c') in
      process_read a xs _ c (omega arith)
      ∙ served_then_ext (drained first) _ (λ c'. served_then (both c') rest)
          (λ c' same.
            process_read b ys reads c'
              (omega (arith, drain_shorter _ first c' same, length-append c.buf (a ∷ xs))))
      ∙ sym (served_then_assoc (drained first) both rest)
      ∙ ap (λ r. served_then r rest)
          (sym (drain-append _ first (b ∷ ys) (omega arith))
            ∙ ap (λ l. drained (with_buf l c)) (append_assoc c.buf (a ∷ xs) (b ∷ ys)))
      ∙ sym (process_read a (xs ++ b ∷ ys) reads c (omega (arith, length-append xs (b ∷ ys))))

  join :
      (a : ℕ) (xs : Bytes) (reads : List Bytes) (c : Session S)
      → NonEmpty reads
      → length c.buf + (length (a ∷ xs) + length (concat reads)) ≤ max_packet_size
      → process_packets_from server ((a ∷ xs) ∷ reads) c
        ≡ process_packets_from server ((a ∷ xs ++ concat reads) ∷ []) c
  join a xs [] c all h =
      ap (λ l. process_packets_from server (l ∷ []) c) (sym (append-nil (a ∷ xs)))
  join a xs ([] ∷ reads) c all h = absurd (omega (arith, all.0))
  join a xs ((b ∷ ys) ∷ reads) c all h =
      process_merged a xs b ys reads c (omega (arith, length-append (b ∷ ys) (concat reads)))
      ∙ join a (xs ++ b ∷ ys) reads c all.1
          (omega (arith, length-append xs (b ∷ ys), length-append (b ∷ ys) (concat reads)))
      ∙ ap (λ l. process_packets_from server (l ∷ []) c)
          (append_assoc (a ∷ xs) (b ∷ ys) (concat reads))

  joined :
      (reads : List Bytes) (c : Session S)
      → NonEmpty reads
      → length c.buf + length (concat reads) ≤ max_packet_size
      → process_packets_from server reads c ≡ process_packets_from server (concat reads ∷ []) c
  unfolding process_packets_from
  joined [] c all h = refl
  joined ([] ∷ reads) c all h = absurd (omega (arith, all.0))
  joined ((a ∷ xs) ∷ reads) c all h =
      join a xs reads c all.1 (omega (arith, length-append (a ∷ xs) (concat reads)))

  -- Two ways to cut a stream that fits into the buffer into reads, none of which is empty, make
  -- the same of a session: the same answers, the same state of the handler, and the same bytes
  -- left over.
  pub process-concat :
      (xs ys : List Bytes) (c : Session S)
      → concat xs ≡ concat ys
      → NonEmpty xs
      → NonEmpty ys
      → length c.buf + length (concat xs) ≤ max_packet_size
      → process_packets_from server xs c ≡ process_packets_from server ys c
  process-concat xs ys c same p q h =
      joined xs c p h
      ∙ ap (λ l. process_packets_from server (l ∷ []) c) same
      ∙ sym (joined ys c q (omega (arith, ap length same)))
