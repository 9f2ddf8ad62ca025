-- ===== src/MacMiner/Work/Steps.antt =====
-- The interleavings of the thread that sets work with one that takes a snapshot, as steps.
use mac_solo_miner.Base.{
  ℕ, ◌-◌, ◌%◌, ◌^◌, ◌≤◌, ◌≡◌, Bool, true, false, if◌then◌else◌, List, [], ◌∷◌, ◌++◌, length,
  get_elem?, some,
}
use mac_solo_miner.MacMiner.Work.{Work, WorkState, new, store_work, bump, generation, mark_solved}

-- Where the reader stands in `snapshot`, and what it has read.
pub data Reader : Type 0 where
  idle : Reader
  took : Work → Reader
  holds : Work → ℕ → Reader

-- The shared state, whether a `set` stands between its two steps, the reader, and all work that
-- was ever stored, the oldest first.
pub record System : Type 0 where
  pub shared : WorkState
  pub setting : Bool
  pub reader : Reader
  pub stored : List Work

unfoldable pub start : System
start = record { shared = new; setting = false; reader = idle; stored = [] }

-- One thread sets work, so that its two steps alternate.
pub data Step : System → System → Type 0 where
  stores :
      (s : System) (work : Work)
      → s.setting ≡ false
      → Step s (record s {
        shared = store_work work s.shared;
        setting = true;
        stored = s.stored ++ work ∷ [];
      })
  bumps :
      (s : System)
      → s.setting ≡ true
      → Step s (record s { shared = bump s.shared; setting = false })
  takes :
      (s : System) (work : Work)
      → s.shared.current ≡ some work
      → Step s (record s { reader = took work })
  reads :
      (s : System) (work : Work)
      → s.reader ≡ took work
      → Step s (record s { reader = holds work (generation s.shared) })
  solves : (s : System) (g : ℕ) → Step s (record s { shared = mark_solved g s.shared })

pub data Reach (s : System) : System → Type 0 where
  here : Reach s s
  next : {t u : System} → Reach s t → Step t u → Reach s u

-- The sets that are through.
abbrev pub finished : System → ℕ
finished s = length s.stored - (if s.setting then 1 else 0)

-- The work was stored behind at most `n` others.
abbrev pub IsStored : List Work → ℕ → Work → Type 0
IsStored stored n work = (i : ℕ) × (get_elem? stored i ≡ some work) × (i ≤ n)

abbrev pub IsRead : Reader → List Work → ℕ → Type 0
IsRead idle stored n = Unit
IsRead (took work) stored n = IsStored stored n work
IsRead (holds work g) stored n = (b : ℕ) × IsStored stored b work × (b ≤ n) × (g ≡ b % 2 ^ 64)
