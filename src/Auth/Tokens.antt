-- ===== src/Auth/Tokens.antt =====
-- What tokens are accepted (sign_session, verify_token, verify_token_async).
use pigeon_trade.Common.{
  ℕ, ◌+◌, ◌≤◌, Bool, true, false, Option, none, some, [], ◌∷◌, ◌++◌, if◌then◌else◌, ltb, eqb,
  eqb_iff, eqb_refl, ◌≡◌, refl, ap, sym, subst, All, arith, Bool-cases, inl, inr, ◌∙◌,
}
use pigeon_trade.Common.Options.{◌>>=◌}
use pigeon_trade.Common.Except.{Except, ok, raise}
use pigeon_trade.Auth.{
  Text, Crypto, IsSound, dot, colon, push_front, signature_prefix, strip_prefix, split_first,
  partition, compare_digest, payload_of, sign_session, session_in, session_of, checked,
  verify_token, in_database, verify_token_async,
}

split_first-append :
    (sep : ℕ) (a b : Text)
    → All (λ c. eqb c sep ≡ false) a
    → split_first sep (a ++ sep ∷ b) ≡ some (a, b)
unfolding split_first
split_first-append sep [] b h = rw (eqb_refl sep)
split_first-append sep (c ∷ a) b h = rw (h.0, split_first-append sep a b h.1)

partition-append :
    (sep : ℕ) (a b : Text) → All (λ c. eqb c sep ≡ false) a → partition sep (a ++ sep ∷ b) ≡ (a, b)
partition-append sep a b h = rw (split_first-append sep a b h, partition)

compare_digest_refl : (t : Text) → compare_digest t t ≡ true
unfolding compare_digest
compare_digest_refl [] = refl
compare_digest_refl (c ∷ t) = rw (eqb_refl c) (compare_digest_refl t)

module _ (crypto : Crypto) (secret : Text) (sound : IsSound crypto) where
  session_of-payload :
      (now expiry : ℕ) (session : Text)
      → session_of crypto secret now (crypto.decimal expiry ++ colon ∷ session)
        ≡ (if ltb expiry now then none else some session)
  unfolding session_of
  session_of-payload now expiry session =
      ap (session_in crypto secret now)
        (partition-append colon (crypto.decimal expiry) session (sound.decimal_digits expiry))
      ∙ rw (sound.decimal_round expiry)

  checked-payload_of :
      (now expiry : ℕ) (session : Text)
      → let payload = payload_of crypto secret expiry session in
        checked crypto secret now payload (crypto.hmac secret payload)
        ≡ (if ltb expiry now then none else some session)
  unfolding checked
  checked-payload_of now expiry session =
      let payload = payload_of crypto secret expiry session in
      rw (compare_digest_refl (crypto.hmac secret payload)) (
        rw (sound.utf8_round (crypto.decimal expiry ++ colon ∷ session))
          (session_of-payload now expiry session))

  -- A token that was signed is accepted until its time to live is over, and not behind that, and
  -- it yields the session that it was signed for.
  pub verify_token-sign_session :
      (now ttl later : ℕ) (session : Text)
      → verify_token crypto secret later (sign_session crypto secret now ttl session)
        ≡ (if ltb (now + ttl) later then none else some session)
  unfolding verify_token sign_session strip_prefix
  verify_token-sign_session now ttl later session =
      let payload = payload_of crypto secret (now + ttl) session in
      let sig = crypto.hmac secret payload in
      rw
        (split_first-append dot (crypto.b64url_encode payload) (crypto.b64url_encode sig)
          (sound.b64url_dotless payload))
        (rw (sound.b64url_round payload)
          (rw (sound.b64url_round sig) (checked-payload_of later (now + ttl) session)))

strip_prefix-some : (p t rest : Text) → strip_prefix p t ≡ some rest → t ≡ p ++ rest
unfolding strip_prefix
strip_prefix-some [] t rest h = ground (arith, h)
strip_prefix-some (x ∷ p) [] rest h = cc
strip_prefix-some (x ∷ p) (c ∷ t) rest h = elim (Bool-cases (eqb x c)) [
  | inl e ↦ ground (arith, strip_prefix-some p t rest, h, e)
  | inr e ↦ ground (arith, h, e)
]

push_front-some :
    (c : ℕ) (o : Option (Text × Text)) (a b : Text)
    → push_front c o ≡ some (a, b)
    → (rest : Text) × (o ≡ some (rest, b)) × (a ≡ c ∷ rest)
push_front-some c none a b h = cc
push_front-some c (some (x, y)) a b h = (x, ground (arith, h), ground (arith, h))

abbrev parts_of : Option (Text × Text) → Text × Text
parts_of none = ([], [])
parts_of (some p) = p

split_first-some :
    (sep : ℕ) (t a b : Text)
    → split_first sep t ≡ some (a, b)
    → (t ≡ a ++ sep ∷ b) × All (λ c. eqb c sep ≡ false) a
unfolding split_first
split_first-some sep [] a b h = cc
split_first-some sep (c ∷ t) a b h = elim (Bool-cases (eqb c sep)) [
  | inl e ↦
      let found : some ([], t) ≡ some (a, b) = rw e at h in
      let first : c ≡ sep = (eqb_iff c sep).0 e in
      subst (λ (p : Text × Text). (c ∷ t ≡ p.0 ++ sep ∷ p.1) × All (λ x. eqb x sep ≡ false) p.0)
        (ap parts_of found) (ap (λ x. x ∷ t) first, tt)
  | inr e ↦
      let pushed : push_front c (split_first sep t) ≡ some (a, b) = rw e at h in
      let (rest, k, same) = push_front-some c (split_first sep t) a b pushed in
      let (cut, clear) = split_first-some sep t rest b k in
      rw same (ap (λ u. c ∷ u) cut, (e, clear))
]

compare_digest_sound : (t u : Text) → compare_digest t u ≡ true → t ≡ u
unfolding compare_digest
compare_digest_sound [] [] h = refl
compare_digest_sound [] (d ∷ u) h = cc
compare_digest_sound (c ∷ t) [] h = cc
compare_digest_sound (c ∷ t) (d ∷ u) h =
    let tail : t ≡ u = compare_digest_sound t u (ground arith) in ground arith

>>=-some :
    {A B : Type 0} (o : Option A) (f : A → Option B) (b : B)
    → (o >>= f) ≡ some b
    → (a : A) × (o ≡ some a) × (f a ≡ some b)
>>=-some none f b h = cc
>>=-some (some a) f b h = (a, refl, h)

module _ (crypto : Crypto) (secret : Text) where
  checked-some :
      (now : ℕ) (payload sig session : Text)
      → checked crypto secret now payload sig ≡ some session
      → (sig ≡ crypto.hmac secret payload)
        × ((text : Text) × (crypto.from_utf8 payload ≡ some text)
            × (session_of crypto secret now text ≡ some session))
  unfolding checked
  checked-some now payload sig session h =
      elim (Bool-cases (compare_digest sig (crypto.hmac secret payload))) [
        | inl e ↦ (
          compare_digest_sound sig (crypto.hmac secret payload) e,
          >>=-some (crypto.from_utf8 payload) (session_of crypto secret now) session
              (rw (e, checked) at h),
        )
        | inr e ↦ absurd (cc (rw (e, checked) at h))
      ]

  session_in-some :
      (now : ℕ) (expiry_text found session : Text)
      → session_in crypto secret now (expiry_text, found) ≡ some session
      → (expiry : ℕ) × (crypto.read_int expiry_text ≡ some expiry)
        × (now ≤ expiry)
        × (found ≡ session)
  session_in-some now expiry_text found session h =
      let (expiry, a, h1) = >>=-some (crypto.read_int expiry_text) _ session h in
      (expiry, a, ground (arith, h1), ground (arith, h1))

  -- A token that is accepted is the prefix, a first part without a dot, a dot and a second part; the
  -- second part decodes to the HMAC, under the secret, of what the first part decodes to; and this is
  -- a text whose part before the first colon is an expiry that is not past, and whose part behind it
  -- is the session.
  pub verify_token_authentic :
      (now : ℕ) (token session : Text)
      → verify_token crypto secret now token ≡ some session
      → (body64 : Text) × (sig64 : Text) × (payload : Text) × (text : Text) × (expiry_text : Text)
        × (expiry : ℕ) × (token ≡ signature_prefix ++ (body64 ++ dot ∷ sig64))
        × All (λ c. eqb c dot ≡ false) body64
        × (crypto.b64url_decode body64 ≡ some payload)
        × (crypto.b64url_decode sig64 ≡ some (crypto.hmac secret payload))
        × (crypto.from_utf8 payload ≡ some text)
        × (partition colon text ≡ (expiry_text, session))
        × (crypto.read_int expiry_text ≡ some expiry)
        × (now ≤ expiry)
  unfolding verify_token session_of
  verify_token_authentic now token session h =
      let (body, a, h1) = >>=-some (strip_prefix signature_prefix token) _ session h in
      let (parts, b, h2) = >>=-some (split_first dot body) _ session h1 in
      let (payload, c, h3) = >>=-some (crypto.b64url_decode parts.0) _ session h2 in
      let (sig, d, h4) = >>=-some (crypto.b64url_decode parts.1) _ session h3 in
      let (same, (text, e, f)) = checked-some now payload sig session h4 in
      let (cut, dotless) = split_first-some dot body parts.0 parts.1 b in
      let halves = partition colon text in
      let (expiry, g, alive, found) = session_in-some now halves.0 halves.1 session f in
      (
        parts.0,
        parts.1,
        payload,
        text,
        halves.0,
        expiry,
        strip_prefix-some signature_prefix token body a ∙ ap (λ t. signature_prefix ++ t) cut,
        dotless,
        c,
        d ∙ ap some same,
        e,
        ap (λ x. (halves.0, x)) found,
        g,
        alive,
      )

  in_database-some :
      (r : Except Bool) (session found : Text)
      → in_database crypto secret r session ≡ some found
      → (r ≡ ok true) × (session ≡ found)
  in_database-some (raise e) session found h = cc
  in_database-some (ok true) session found h = (refl, ground arith)
  in_database-some (ok false) session found h = cc

  -- With a database, a token is accepted only where it is valid and the query for its session finds
  -- a row: a query that fails rejects it.
  verify_token_async-closed :
      (now : ℕ) (token session : Text) (exists : Text → Except Bool)
      → verify_token_async crypto secret now token (some exists) ≡ some session
      → (verify_token crypto secret now token ≡ some session) × (exists session ≡ ok true)
  unfolding verify_token_async
  verify_token_async-closed now token session exists h =
      let (found, a, b) = >>=-some (verify_token crypto secret now token) _ session h in
      let (row, same) = in_database-some (exists found) found session b in
      (a ∙ ap some same, ap exists (sym same) ∙ row)
