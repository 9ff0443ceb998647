-- ===== src/Network/Framing/Chunks.antt =====
-- The messages that ReadBuffer of src/Network.cpp cuts out do not depend on how the bytes arrive.
use openfix.Prelude.{
  ℕ, zero, suc, ◌<◌, List, [], ◌∷◌, ◌++◌, append-nil, append_assoc, Bytes, length, ◌≡◌, refl, sym,
  ap, ◌∙◌, arith,
}
use openfix.Network.Framing.{
  strip, find_text, Round, waits, skips, cuts, extract_one, extract_loop, extract, read_chunks,
}
use openfix.Network.Framing.Grows.{extract_one-Grows}

abbrev pub prepend : List Bytes → List Bytes × Bytes → List Bytes × Bytes
prepend messages (more, end) = (messages ++ more, end)

-- What the loop gives after a round.
abbrev pub after : Round → (Bytes → List Bytes × Bytes) → List Bytes × Bytes
after (waits r) f = ([], r)
after (skips r) f = f r
after (cuts m r) f = prepend (m ∷ []) (f r)

extract_loop-after :
    (fuel : ℕ) (s : Bytes) → extract_loop (suc fuel) s ≡ after (extract_one s) (extract_loop fuel)
unfolding extract_loop
extract_loop-after fuel s = go (extract_one s) refl
  where
    go : (o : Round) → extract_one s ≡ o → extract_loop (suc fuel) s ≡ after o (extract_loop fuel)
    go (waits r) e = rw (extract_loop, e) refl
    go (skips r) e = rw (extract_loop, e) refl
    go (cuts m r) e = rw (extract_loop, e) refl

-- What follows a round is at a shorter text.
after-same :
    (s : Bytes) (f g : Bytes → List Bytes × Bytes)
    → ((r : Bytes) → length r < length s → f r ≡ g r)
    → after (extract_one s) f ≡ after (extract_one s) g
after-same s f g same = go (extract_one s) refl
  where
    go : (o : Round) → extract_one s ≡ o → after o f ≡ after o g
    go (waits r) e = refl
    go (skips r) e = same r (extract_one-Grows s [] (skips r) e).1
    go (cuts m r) e = ap (prepend (m ∷ [])) (same r (extract_one-Grows s [] (cuts m r) e).1)

-- Fuel beyond the length of the text makes no difference.
extract_loop-enough :
    (f g : ℕ) (s : Bytes) → length s < f → length s < g → extract_loop f s ≡ extract_loop g s
extract_loop-enough zero g s h k = absurd (omega arith)
extract_loop-enough (suc f) zero s h k = absurd (omega arith)
extract_loop-enough (suc f) (suc g) s h k =
    extract_loop-after f s
    ∙ after-same s (extract_loop f) (extract_loop g)
        (λ r short. extract_loop-enough f g r (omega arith) (omega arith))
    ∙ sym (extract_loop-after g s)

pub extract-after : (s : Bytes) → extract s ≡ after (extract_one s) extract
unfolding extract
extract-after s =
    extract_loop-after (length s) s
    ∙ after-same s (extract_loop (length s)) extract
        (λ r short. extract_loop-enough (length s) (suc (length r)) r (omega arith) (omega arith))

-- What the buffer gives when bytes arrive later.
abbrev Later : Bytes → Bytes → List Bytes × Bytes → Type 0
Later s t (messages, rest) = extract (s ++ t) ≡ prepend messages (extract (rest ++ t))

after-Later :
    (s t : Bytes)
    → ((r : Bytes) → length r < length s → Later r t (extract r))
    → Later s t (after (extract_one s) extract)
after-Later s t later = go (extract_one s) refl
  where
    go : (o : Round) → extract_one s ≡ o → Later s t (after o extract)
    go (waits r) e =
        extract-after (s ++ t)
        ∙ ap (λ o. after o extract) (extract_one-Grows s t (waits r) e)
        ∙ sym (extract-after (r ++ t))
    go (skips r) e =
        let (grown, short) = extract_one-Grows s t (skips r) e in
        extract-after (s ++ t) ∙ ap (λ o. after o extract) grown ∙ later r short
    go (cuts m r) e =
        let (grown, short) = extract_one-Grows s t (cuts m r) e in
        extract-after (s ++ t)
        ∙ ap (λ o. after o extract) grown
        ∙ ap (prepend (m ∷ [])) (later r short)

extract-Later : (n : ℕ) (s t : Bytes) → length s < n → Later s t (extract s)
extract-Later zero s t h = absurd (omega arith)
extract-Later (suc n) s t h =
    rw (extract-after s) (after-Later s t (λ r short. extract-Later n r t (omega arith)))

-- Cutting the bytes that have arrived before the others arrive makes no difference: the messages
-- and what stays in the buffer are those of all bytes at once.
pub extract-append :
    (s t : Bytes)
    → extract (s ++ t)
      ≡ ((extract s).0 ++ (extract ((extract s).1 ++ t)).0, (extract ((extract s).1 ++ t)).1)
extract-append s t = extract-Later (suc (length s)) s t (omega arith)

-- No message is left in what stays.
Settled : List Bytes × Bytes → Type 0
Settled (messages, rest) = extract rest ≡ ([], rest)

after-Settled :
    (s : Bytes)
    → ((r : Bytes) → length r < length s → Settled (extract r))
    → Settled (after (extract_one s) extract)
unfolding Settled
after-Settled s settled = go (extract_one s) refl
  where
    go : (o : Round) → extract_one s ≡ o → Settled (after o extract)
    go (waits r) e =
        let grown : extract_one s ≡ extract_one r =
          rw (append-nil s, append-nil r) at (extract_one-Grows s [] (waits r) e) in
        extract-after r ∙ ap (λ o. after o extract) (sym grown ∙ e)
    go (skips r) e = settled r (extract_one-Grows s [] (skips r) e).1
    go (cuts m r) e = settled r (extract_one-Grows s [] (cuts m r) e).1

extract-Settled : (n : ℕ) (s : Bytes) → length s < n → Settled (extract s)
extract-Settled zero s h = absurd (omega arith)
extract-Settled (suc n) s h =
    rw (extract-after s) (after-Settled s (λ r short. extract-Settled n r (omega arith)))

-- The bytes of the reads in their order.
abbrev pub concat : List Bytes → Bytes
concat [] = []
concat (chunk ∷ chunks) = chunk ++ concat chunks

read_chunks-concat :
    (chunks : List Bytes) (buffer : Bytes)
    → extract buffer ≡ ([], buffer)
    → read_chunks chunks buffer ≡ extract (buffer ++ concat chunks)
unfolding read_chunks Settled
read_chunks-concat [] buffer h = rw (append-nil buffer) (sym h)
read_chunks-concat (chunk ∷ chunks) buffer h =
    let s = buffer ++ chunk in
    ap (prepend (extract s).0)
      (read_chunks-concat chunks (extract s).1 (extract-Settled (suc (length s)) s (omega arith)))
    ∙ sym (extract-append s (concat chunks))
    ∙ ap extract (append_assoc buffer chunk (concat chunks))

-- The messages that the reads cut out, and what stays in the buffer, do not depend on how the
-- bytes of a connection are split over the reads.
pub read_chunks-same :
    (a b : List Bytes) → concat a ≡ concat b → read_chunks a [] ≡ read_chunks b []
unfolding extract extract_loop extract_one find_text strip
read_chunks-same a b h =
    read_chunks-concat a [] refl ∙ ap extract h ∙ sym (read_chunks-concat b [] refl)
