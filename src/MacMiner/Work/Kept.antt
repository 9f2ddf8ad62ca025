-- ===== src/MacMiner/Work/Kept.antt =====
-- What every interleaving of `set` and `snapshot` keeps.
use mac_solo_miner.Base.{
  ℕ, zero, suc, ◌+◌, ◌-◌, ◌%◌, ◌^◌, ◌≤◌, ◌<◌, ◌≡◌, refl, sym, ap, ◌∙◌, arith, true, false,
  if◌then◌else◌, List, [], ◌∷◌, ◌++◌, length, length-append, get_elem?, Option, some,
}
use mac_solo_miner.MacMiner.Work.{Work, new, store_work, bump, generation, mark_solved}
use mac_solo_miner.MacMiner.Work.Steps.{
  Reader, idle, took, holds, System, start, Step, stores, bumps, takes, reads, solves, Reach, here,
  next, finished, IsStored, IsRead,
}

abbrev newest : List Work → Option Work
newest stored = get_elem? stored (length stored - 1)

record Fits (s : System) : Type 0 where
  pub counted : s.shared.sets ≡ finished s % 2 ^ 64
  pub newest_current : s.shared.current ≡ newest s.stored
  pub begun : s.setting ≡ true → 0 < length s.stored
  pub read : IsRead s.reader s.stored (finished s)

get_elem?-append :
    (xs : List Work) (y w : Work) (i : ℕ)
    → get_elem? xs i ≡ some w
    → get_elem? (xs ++ y ∷ []) i ≡ some w
get_elem?-append [] y w i h = cc
get_elem?-append (x ∷ xs) y w zero h = h
get_elem?-append (x ∷ xs) y w (suc i) h = get_elem?-append xs y w i h

get_elem?-last : (xs : List Work) (y : Work) → get_elem? (xs ++ y ∷ []) (length xs) ≡ some y
get_elem?-last [] y = refl
get_elem?-last (x ∷ xs) y = get_elem?-last xs y

-- Nothing read is lost by another set.
IsRead-append :
    (reader : Reader) (stored : List Work) (y : Work) (m n : ℕ)
    → m ≤ n
    → IsRead reader stored m
    → IsRead reader (stored ++ y ∷ []) n
IsRead-append idle stored y m n h read = tt
IsRead-append (took work) stored y m n h (i, at, le) =
    (i, get_elem?-append stored y work i at, omega arith)
IsRead-append (holds work g) stored y m n h (b, (i, at, below), le, e) =
    (b, (i, get_elem?-append stored y work i at, below), omega arith, e)

IsRead-later :
    (reader : Reader) (stored : List Work) (m n : ℕ)
    → m ≤ n
    → IsRead reader stored m
    → IsRead reader stored n
IsRead-later idle stored m n h read = tt
IsRead-later (took work) stored m n h (i, at, le) = (i, at, omega arith)
IsRead-later (holds work g) stored m n h (b, stands, le, e) = (b, stands, omega arith, e)

Fits-stores :
    (s : System) (work : Work)
    → s.setting ≡ false
    → Fits s
    → Fits (record s {
      shared = store_work work s.shared;
      setting = true;
      stored = s.stored ++ work ∷ [];
    })
unfolding store_work
Fits-stores s work h fits =
    let one_more : length (s.stored ++ work ∷ []) ≡ length s.stored + 1 =
      length-append s.stored (work ∷ []) in
    let idle_before : finished s ≡ length s.stored =
      ap (λ b. length s.stored - (if b then 1 else 0)) h ∙ omega arith in
    let same : finished s ≡ length (s.stored ++ work ∷ []) - 1 =
      omega (arith, one_more, idle_before) in
    let last : length s.stored ≡ length (s.stored ++ work ∷ []) - 1 = omega (arith, one_more) in
    record {
      counted = fits.counted ∙ ap (λ n. n % 2 ^ 64) same;
      newest_current =
          sym (get_elem?-last s.stored work) ∙ ap (get_elem? (s.stored ++ work ∷ [])) last;
      begun = λ _. omega (arith, one_more);
      read =
          IsRead-append s.reader s.stored work (finished s) (length (s.stored ++ work ∷ []) - 1)
            (omega (arith, same)) fits.read;
    }

Fits-bumps :
    (s : System)
    → s.setting ≡ true
    → Fits s
    → Fits (record s { shared = bump s.shared; setting = false })
unfolding bump
Fits-bumps s h fits =
    let before : finished s ≡ length s.stored - 1 =
      ap (λ b. length s.stored - (if b then 1 else 0)) h in
    record {
      counted = omega (arith, fits.counted, before, fits.begun h);
      newest_current = fits.newest_current;
      begun = λ e. cc;
      read =
          IsRead-later s.reader s.stored (finished s) (length s.stored - 0) (omega (arith, before))
            fits.read;
    }

-- The work that is there is the newest, behind at most one that is being set.
newest-IsStored :
    (s : System) (work : Work)
    → Fits s
    → s.shared.current ≡ some work
    → IsStored s.stored (finished s) work
newest-IsStored s work fits h = (length s.stored - 1, sym fits.newest_current ∙ h, ground arith)

Fits-reads :
    (s : System) (work : Work) (reader : Reader)
    → reader ≡ took work
    → IsRead reader s.stored (finished s)
    → s.shared.sets ≡ finished s % 2 ^ 64
    → IsRead (holds work (generation s.shared)) s.stored (finished s)
unfolding generation
Fits-reads s work idle e read counted = cc
Fits-reads s work (holds other g) e read counted = cc
Fits-reads s work (took other) e (i, at, le) counted =
    (finished s, (i, at ∙ cc, le), omega arith, counted)

Step-Fits : {s t : System} → Step s t → Fits s → Fits t
unfolding mark_solved
Step-Fits (stores s work h) fits = Fits-stores s work h fits
Step-Fits (bumps s h) fits = Fits-bumps s h fits
Step-Fits (takes s work h) fits = record {
  counted = fits.counted;
  newest_current = fits.newest_current;
  begun = fits.begun;
  read = newest-IsStored s work fits h;
}
Step-Fits (reads s work h) fits = record {
  counted = fits.counted;
  newest_current = fits.newest_current;
  begun = fits.begun;
  read = Fits-reads s work s.reader h fits.read fits.counted;
}
Step-Fits (solves s g) fits = record {
  counted = fits.counted;
  newest_current = fits.newest_current;
  begun = fits.begun;
  read = fits.read;
}

Reach-Fits : {s : System} → Reach start s → Fits s
unfolding new start
Reach-Fits here = record { counted = refl; newest_current = refl; begun = λ e. cc; read = tt }
Reach-Fits (next path step) = Step-Fits step (Reach-Fits path)

-- In every interleaving, the generation counts the sets that are through, modulo 2^64; the
-- current work is the newest that was stored; and a snapshot pairs work that was stored behind
-- at most `b` others with the generation of `b` sets, where `b` is at most the number of the sets
-- that are through.
pub Reach-generation :
    (s : System)
    → Reach start s
    → (s.shared.sets ≡ finished s % 2 ^ 64)
      × (s.shared.current ≡ get_elem? s.stored (length s.stored - 1))
      × IsRead s.reader s.stored (finished s)
Reach-generation s path =
    let fits : Fits s = Reach-Fits path in (fits.counted, fits.newest_current, fits.read)
