-- ===== src/Ple/Files/Steps.antt =====
-- What a step, and a sequence of steps, does to the files.
use gb10x.Prelude.{◌≡◌, ◌⊎◌, inl, inr, ◌∙◌, refl, ap, Option, none, some, ok, err, panic}
use gb10x.Ple.Format.{io}
use gb10x.Ple.Disk.{IoOutcome}
use gb10x.Ple.Files.{
  FilePath, Fault, Files, Step, ◌>>=◌, and_then, find_file, next_fault, settle, operate,
}

-- What holds of the files after the first step, and after the others where it succeeds, holds after all.
pub and_then-holds :
    {A B : Type 0} (P : Files → Type 0) (o : Files × IoOutcome A) (rest : A → Step B)
    → P o.0
    → ((a : A) → o.1 ≡ ok a → P (rest a o.0).0)
    → P (and_then o rest).0
and_then-holds P (fs, ok a) rest here there = there a refl
and_then-holds P (fs, err e) rest here there = here
and_then-holds P (fs, panic) rest here there = here

-- A sequence that succeeds, step by step.
pub and_then-eq-ok :
    {A B : Type 0} (o : Files × IoOutcome A) (rest : A → Step B) {b : B}
    → (and_then o rest).1 ≡ ok b
    → (a : A) × (o.1 ≡ ok a) × ((rest a o.0).1 ≡ ok b) × (and_then o rest ≡ rest a o.0)
and_then-eq-ok (fs, ok a) rest h = (a, refl, h, refl)
and_then-eq-ok (fs, err e) rest h = cc
and_then-eq-ok (fs, panic) rest h = cc

abbrev pub Stays : {A : Type 0} → FilePath → Step A → Type 0
Stays q step = (fs : Files) → find_file q (step fs).0.contents ≡ find_file q fs.contents

pub >>=-Stays :
    {A B : Type 0} (q : FilePath) (step : Step A) (rest : A → Step B)
    → Stays q step
    → ((a : A) → Stays q (rest a))
    → Stays q (step >>= rest)
>>=-Stays q step rest here there fs =
    and_then-holds (λ (gs : Files). find_file q gs.contents ≡ find_file q fs.contents) (step fs)
      rest (here fs) (λ a _. there a (step fs).0 ∙ here fs)

-- The files once the next fault is taken.
abbrev pub fault_taken : Files → Files
fault_taken fs = record fs { faults = (next_fault fs.faults).1 }

module _ (effect : Files → Files) (failing : Fault → Files → Files) where
  pub operate-cases :
      (fs : Files)
      → (operate effect failing fs ≡ (effect (fault_taken fs), ok tt))
        ⊎ ((fault : Fault) × (operate effect failing fs
              ≡ (failing fault (fault_taken fs), err (io fault.message))))
  operate-cases fs = settled (next_fault fs.faults).0 (fault_taken fs)
    where
      settled :
          (next : Option Fault) (gs : Files)
          → (settle effect failing next gs ≡ (effect gs, ok tt))
            ⊎ ((fault : Fault) × (settle effect failing next gs
                  ≡ (failing fault gs, err (io fault.message))))
      settled none gs = inl refl
      settled (some fault) gs = inr (fault, refl)

  pub operate-Stays :
      (q : FilePath)
      → ((fs : Files) → find_file q (effect fs).contents ≡ find_file q fs.contents)
      → ((fault : Fault) (fs : Files)
          → find_file q (failing fault fs).contents ≡ find_file q fs.contents)
      → Stays q (operate effect failing)
  operate-Stays q here there fs = elim (operate-cases fs) [
    | inl done ↦ ap (λ o. find_file q o.0.contents) done ∙ here (fault_taken fs)
    | inr (fault, done) ↦ ap (λ o. find_file q o.0.contents) done ∙ there fault (fault_taken fs)
  ]

  -- The files after an operation that succeeds.
  pub operate-ok :
      (fs : Files)
      → (operate effect failing fs).1 ≡ ok tt
      → (operate effect failing fs).0 ≡ effect (fault_taken fs)
  operate-ok fs h = elim (operate-cases fs) [
    | inl done ↦ ap (λ o. o.0) done
    | inr (fault, done) ↦ let e = ap (λ o. o.1) done in cc
  ]
