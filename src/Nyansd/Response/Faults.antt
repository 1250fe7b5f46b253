-- ===== src/Nyansd/Response/Faults.antt =====
-- Where the response parser does less than the protocol asks for.
use nyan_sd.Base.{
  ℕ, zero, suc, ◌+◌, ◌-◌, ◌^◌, ◌<◌, ◌≤◌, ◌≡◌, refl, subst, true, List, [], ◌∷◌, ◌++◌, arith, length,
  length-append, append_assoc, ltb, le→ltb, lt→ltb, Bytes,
}
use nyan_sd.ByteBauble.{BbEndianness}
use nyan_sd.Nyansd.{Service, signature}
use nyan_sd.Nyansd.Wire.{At, read_bytes_lem}
use nyan_sd.Nyansd.Response.{
  is_short-received, on, after_message, parse_messages, returned, parse_buffers, buffer_size,
}
use nyan_sd.Nyansd.Response.Message.{
  message, message_with, FitsMessage, length-message, length-message_with, parse_message-message,
  parse_message-message_with, Signed,
}
use nyan_sd.Nyansd.Response.Datagram.{moved}

-- A datagram of two messages, the second with any bytes in the place of its signature.
unfoldable pub two_messages : List Service → Bytes → List Service → Bytes
two_messages svs sig svs' = message svs ++ message_with sig svs'

module _ (machine : BbEndianness) (svs svs' : List Service) (sig junk : Bytes) (out : List Service)
    (f : FitsMessage svs) (f' : FitsMessage svs') (six : length sig ≡ 6) where
  two_rounds :
      (fuel n : ℕ)
      → n ≡ length (message svs) + length (message_with sig svs')
      → n < 2 ^ 32
      → parse_messages
          (suc (suc fuel))
          machine
          (message svs ++ (message_with sig svs' ++ junk))
          n
          0
          out
        ≡ on n (out ++ svs ++ svs')
  unfolding parse_messages
  two_rounds fuel n e small =
      let buffer = message svs ++ (message_with sig svs' ++ junk) in
      let start : At buffer 0 buffer = (refl, omega arith) in
      let signed : Signed buffer =
        unfold message message_with in (read_bytes_lem buffer 0 signature _ start).0 in
      let (j, e₁, a₁) =
        parse_message-message machine svs buffer n 0 out _ f signed start (omega arith) small in
      let m₁ = moved buffer 0 j (message svs) _ start a₁ in
      let (k, e₂, a₂) =
        parse_message-message_with machine sig svs' buffer n j (out ++ svs) junk six f' signed a₁
          (omega arith) small in
      let m₂ = moved buffer j k (message_with sig svs') junk a₁ a₂ in
      let first : ltb 0 n ≡ true = lt→ltb 0 n (omega (arith, length-message svs)) in
      let second : ltb j n ≡ true = lt→ltb j n (omega (arith, length-message_with sig svs')) in
      let last : k ≡ n = omega arith in
      rw (first, parse_messages, e₁, after_message, second, e₂, after_message, last) (finish fuel n)
    where
      finish :
          (fuel n : ℕ)
          → parse_messages fuel machine
              (message svs ++ (message_with sig svs' ++ junk))
              n
              n
              (out ++ svs ++ svs')
            ≡ on n (out ++ svs ++ svs')
      finish zero n = rw (le→ltb n n (omega arith))
      finish (suc fuel) n = rw (le→ltb n n (omega arith), parse_messages)

  -- The signature of a second message in a datagram is not looked at: with any six bytes in its
  -- place the call returns true with the services of both messages, when these fit their messages
  -- and the datagram fits the receive buffer of 2048 bytes.
  pub second_signature_ignored :
      length (two_messages svs sig svs') ≤ buffer_size
      → parse_buffers machine
          (record {
            bytes = two_messages svs sig svs' ++ junk;
            length = length (two_messages svs sig svs');
          }
            ∷ [])
          out
        ≡ returned true (out ++ svs ++ svs')
  unfolding parse_buffers two_messages
  second_signature_ignored small =
      let n = length (message svs ++ message_with sig svs') in
      let e : n ≡ length (message svs) + length (message_with sig svs') =
        length-append (message svs) (message_with sig svs') in
      let rounds =
        subst
          (λ k.
            parse_messages k machine (message svs ++ (message_with sig svs' ++ junk)) n 0 out
            ≡ on n (out ++ svs ++ svs'))
          (two (omega (arith, length-message svs)))
          (two_rounds (n - 2) n e (omega (arith, small))) in
      rw (
        is_short-received n (omega (arith, length-message svs)) (omega (arith, small)),
        append_assoc (message svs) (message_with sig svs') junk,
        rounds,
      )
    where
      two : {n : ℕ} → 2 ≤ n → suc (suc (n - 2)) ≡ n
      two h = omega arith
