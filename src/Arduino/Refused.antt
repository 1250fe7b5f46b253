-- ===== src/Arduino/Refused.antt =====
-- A datagram that `getResponses` refuses.
use nyan_sd.Base.{
  ℕ, zero, suc, ◌+◌, ◌-◌, ◌^◌, ◌<◌, ◌≤◌, ◌≡◌, ◌≢◌, refl, sym, ap, ◌∙◌, inl, true, false, some, none,
  Bool, List, [], ◌∷◌, ◌++◌, arith, length, length-append, subst, append_assoc, append-nil, map,
  All, ltb, le→ltb, lt→ltb, ◌==◌, equal, equal_iff, equal_refl, if◌then◌else◌, Bytes,
}
use nyan_sd.ByteBauble.{le_bytes}
use nyan_sd.ByteBauble.Order.{length-le_bytes}
use nyan_sd.Nyansd.{Service, signature}
use nyan_sd.Nyansd.Wire.{ok, At, read_bytes, read8_lem, read_bytes_lem}
use nyan_sd.Nyansd.Response.Message.{message, FitsMessage}
use nyan_sd.Arduino.{
  NysdService, Query, Client, send_query, nodes, code, parse_datagram, parse_service, first_service,
  parse_sections, with_signature, with_length, with_type, with_count, at_chain, after_datagram,
  advance, Responses, returned, get_loop, get_responses,
}
use nyan_sd.Arduino.Session.{
  receive_all, from_port, chain, with_datagrams, asked, flag, receive_all_lem, send_query-asked,
}
use nyan_sd.Arduino.Parse.{first_of, firsts, read_le_lem, parse_datagram-message}

-- Why a datagram is refused, with the code that says so: it is short; it has another signature; a
-- length that is more than follows; another type; or a section that does not start with S.
pub data Refused (d : Bytes) (k : ℕ) : Type 0 where
  short : k ≡ 8 → length d < 8 → Refused d k
  unsigned :
      (sig rest : Bytes)
      → k ≡ 9
      → d ≡ sig ++ rest
      → length sig ≡ 6
      → 2 ≤ length rest
      → sig ≢ signature
      → Refused d k
  incomplete :
      (len : ℕ) (rest : Bytes)
      → k ≡ 10
      → d ≡ signature ++ (le_bytes 2 len ++ rest)
      → len < 256 ^ 2
      → length rest < len
      → Refused d k
  no_response :
      (len type : ℕ) (rest : Bytes)
      → k ≡ 11
      → d ≡ signature ++ (le_bytes 2 len ++ type ∷ rest)
      → len < 256 ^ 2
      → len ≤ length rest + 1
      → type ≢ 2
      → Refused d k
  no_section :
      (len rnum tag : ℕ) (rest : Bytes)
      → k ≡ 12
      → d ≡ signature ++ (le_bytes 2 len ++ (2 ∷ suc rnum ∷ tag ∷ rest))
      → len < 256 ^ 2
      → len ≤ length rest + 3
      → tag ≢ b'S'
      → Refused d k

-- What the parser makes of a signature and a length behind it.
parse_datagram-len :
    (d : Bytes) (len : ℕ) (rest : Bytes)
    → d ≡ signature ++ (le_bytes 2 len ++ rest)
    → len < 256 ^ 2
    → (parse_datagram d ≡ with_length d (ok len)) × At d 8 rest × (length d ≡ length rest + 8)
unfolding parse_datagram
parse_datagram-len d len rest form fits =
    let (e0, a0) = read_bytes_lem d 0 signature (le_bytes 2 len ++ rest) (form, omega arith) in
    let (e1, a1) = read_le_lem 2 len d 6 rest (inl refl) fits a0 in
    let size : length d ≡ length rest + 8 =
      omega (arith, ap length form, length-append (le_bytes 2 len) rest, length-le_bytes 2 len) in
    (
      rw (le→ltb (length d) 8 (omega arith), e0, with_signature, equal_refl signature, e1) refl,
      a1,
      size,
    )

parse_datagram-Refused : (d : Bytes) (k : ℕ) → Refused d k → parse_datagram d ≡ code k
unfolding parse_datagram
parse_datagram-Refused d k (short ek few) = rw (lt→ltb (length d) 8 few) (ap code (sym ek))
parse_datagram-Refused d k (unsigned sig rest ek form six long other) =
    let (e0, _) = read_bytes_lem d 0 sig rest (form, omega arith) in
    let first : read_bytes d 0 6 ≡ ok sig = subst (λ n. read_bytes d 0 n ≡ ok sig) six e0 in
    let size : 8 ≤ length d = omega (arith, ap length form, length-append sig rest) in
    let differs : equal sig signature ≡ false = ground (arith, equal_iff sig signature) in
    rw (le→ltb (length d) 8 size, first) (unfold with_signature in rw differs (ap code (sym ek)))
parse_datagram-Refused d k (incomplete len rest ek form fits less) =
    let (e, a, size) = parse_datagram-len d len rest form fits in
    let missing : ltb (length d - 8) len ≡ true = lt→ltb _ _ (omega arith) in
    e ∙ unfold with_length in rw missing (ap code (sym ek))
parse_datagram-Refused d k (no_response len type rest ek form fits enough other) =
    let (e, a, size) = parse_datagram-len d len (type ∷ rest) form fits in
    let (e2, _) = read8_lem d 8 type rest a in
    let whole : ltb (length d - 8) len ≡ false = le→ltb _ _ (omega arith) in
    let differs : (type == 2) ≡ false = ground arith in
    e ∙ unfold with_length in rw (whole, e2) (unfold with_type in rw differs (ap code (sym ek)))
parse_datagram-Refused d k (no_section len rnum tag rest ek form fits enough other) =
    let (e, a, size) = parse_datagram-len d len (2 ∷ suc rnum ∷ tag ∷ rest) form fits in
    let (e2, a2) = read8_lem d 8 _ _ a in
    let (e3, a3) = read8_lem d 9 _ _ a2 in
    let (e4, _) = read8_lem d 10 tag rest a3 in
    let whole : ltb (length d - 8) len ≡ false = le→ltb _ _ (omega arith) in
    let differs : (tag == b'S') ≡ false = ground arith in
    e
    ∙ unfold with_length in
      rw (whole, e2)
        (unfold with_type in
          rw e3 (
            unfold with_count parse_sections parse_service first_service in
            rw (e4, differs) (ap code (sym ek))))

-- One round, on a response message with any datagrams behind it.
at_chain-good :
    (c : Client) (svs : List Service) (ds : List Bytes) (out : List NysdService)
    (next : Client → List NysdService → Responses)
    → FitsMessage svs
    → at_chain c (nodes (message svs) ds) out next
      ≡ next (record c { response = advance ds }) (out ++ first_of svs)
unfolding at_chain after_datagram
at_chain-good c svs ds out next f = rw (parse_datagram-message svs f)

at_chain-Refused :
    (c : Client) (d : Bytes) (ds : List Bytes) (k : ℕ) (out : List NysdService)
    (next : Client → List NysdService → Responses)
    → Refused d k
    → at_chain c (nodes d ds) out next ≡ returned k c out none
unfolding at_chain after_datagram
at_chain-Refused c d ds k out next h = rw (parse_datagram-Refused d k h)

get_loop-Refused :
    (good : List (List Service)) (d : Bytes) (ds : List Bytes) (k rounds : ℕ) (c : Client)
    (out : List NysdService)
    → All FitsMessage good
    → Refused d k
    → length good < rounds
    → c.response ≡ chain (map message good ++ d ∷ ds)
    → get_loop rounds c out
      ≡ returned k (record c { response = nodes d ds }) (out ++ firsts good) none
unfolding get_loop firsts
get_loop-Refused good d ds k zero c out fs h more e = absurd (omega arith)
get_loop-Refused [] d ds k (suc rounds) c out fs h more e =
    ap (λ ch. at_chain c ch out (λ c' out'. get_loop rounds c' out')) e
    ∙ at_chain-Refused c d ds k out _ h
    ∙ λ i. returned k (record c { response = e i }) (sym (append-nil out) i) none
get_loop-Refused (svs ∷ good) d ds k (suc rounds) c out (f, fs) h more e =
    ap (λ ch. at_chain c ch out (λ c' out'. get_loop rounds c' out')) e
    ∙ at_chain-good c svs (map message good ++ d ∷ ds) out _ f
    ∙ get_loop-Refused good d ds k rounds
        (record c { response = advance (map message good ++ d ∷ ds) }) (out ++ first_of svs) fs h
        (omega arith) (advance-chain good)
    ∙ ap (λ o. returned k (record c { response = nodes d ds }) o none)
        (append_assoc out (first_of svs) (firsts good))
  where
    advance-chain :
        (svss : List (List Service))
        → advance (map message svss ++ d ∷ ds) ≡ chain (map message svss ++ d ∷ ds)
    advance-chain [] = unfold advance in refl
    advance-chain (svs ∷ svss) = unfold advance in refl

get_responses-stops :
    (good : List (List Service)) (d : Bytes) (ds : List Bytes) (k : ℕ) (c : Client)
    → All FitsMessage good
    → Refused d k
    → c.received ≡ true
    → length good < c.count
    → c.response ≡ chain (map message good ++ d ∷ ds)
    → get_responses c ≡ returned k (record c { response = nodes d ds }) (firsts good) none
unfolding get_responses
get_responses-stops good d ds k c fs h r more e =
    ap (λ b. if b then get_loop c.count c [] else returned 1 c [] none) r
    ∙ get_loop-Refused good d ds k c.count c [] fs h more e

-- A datagram among those received.
flag-some :
    (b : Bool) (xs : List Bytes) (d : Bytes) (ds : List Bytes) → flag b (xs ++ d ∷ ds) ≡ true
flag-some b [] d ds = refl
flag-some b (x ∷ xs) d ds = refl

length-good :
    (good : List (List Service)) (d : Bytes) (ds : List Bytes)
    → length good < length (map message good ++ d ∷ ds)
length-good [] d ds = omega arith
length-good (svs ∷ good) d ds = omega (arith, length-good good d ds)

-- After a query, when some of the datagrams from the queried port are response messages and the
-- one behind them is refused, `getResponses` returns its code, with the first service of each of
-- those messages, and does not set `resnum`. The refused datagram stays in front: whatever arrives
-- before the next query, a further call returns that code with no services, and changes nothing.
pub get_responses-Refused :
    (of_char : ℕ → Bytes) (port : ℕ) (qs : List Query) (can_send : Bool) (c : Client)
    (good : List (List Service)) (d : Bytes) (ds : List Bytes) (k : ℕ)
    (arrivals later : List (Bytes × ℕ))
    → 0 < length qs
    → All FitsMessage good
    → Refused d k
    → from_port port arrivals ≡ map message good ++ d ∷ ds
    → (c' c₁ c₂ : Client) × (receive_all arrivals (send_query of_char port qs can_send c).client
        ≡ some c')
      × (get_responses c' ≡ returned k c₁ (firsts good) none)
      × (receive_all later c₁ ≡ some c₂)
      × (get_responses c₂ ≡ returned k c₂ [] none)
unfolding firsts
get_responses-Refused of_char port qs can_send c good d ds k arrivals later some_query fs h e =
    let ps = map message good ++ d ∷ ds in
    let c' : Client = with_datagrams [] (asked port c) ps in
    let c₁ : Client = record c' { response = nodes d ds } in
    let qs' = from_port port later in
    let c₂ : Client = with_datagrams (d ∷ ds) c₁ qs' in
    (
      c',
      c₁,
      c₂,
      ap (receive_all arrivals) (send_query-asked of_char port qs can_send c some_query)
          ∙ receive_all_lem arrivals [] (asked port c) refl
          ∙ ap (λ xs. some (with_datagrams [] (asked port c) xs)) e,
      get_responses-stops good d ds k c' fs h (flag-some c.received (map message good) d ds)
          (omega (arith, length-good good d ds)) refl,
      receive_all_lem later (d ∷ ds) c₁ refl,
      get_responses-stops [] d (ds ++ qs') k c₂ tt h (still_received qs')
          (omega (arith, length-good good d ds)) refl,
    )
  where
    still_received :
        (xs : List Bytes) → flag (flag c.received (map message good ++ d ∷ ds)) xs ≡ true
    still_received [] = flag-some c.received (map message good) d ds
    still_received (x ∷ xs) = refl
