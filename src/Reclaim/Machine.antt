-- ===== src/Reclaim/Machine.antt =====
-- A machine with one file and one descriptor for it, which keeps to what the system's calls document.
use hsed.Base.{
  ℕ, ◌≡◌, refl, ap, ◌∙◌, ℤ, pos, eqb_ℤ, eqb_ℤ→eq, Bool, true, false, Bool-cases, inl, inr, ◌&&◌,
  Option, none, some, List, codes, if◌then◌else◌,
}
use hsed.Outcome.{Outcome, ok, err}
use hsed.Reclaim.{Kernel}
use hsed.Reclaim.Truncated.{Files, Documented, Unchanged}

pub record Machine : Type 0 where
  pub bytes : ℤ
  pub opened : Bool
  pub sent : List (List ℕ)

-- The descriptor that the machine gives.
abbrev the_fd : ℤ
the_fd = pos 9

abbrev open_file : Machine → Machine × Outcome ℤ
open_file m = if m.opened then (m, err (codes "busy")) else (record m { opened = true }, ok the_fd)

abbrev empty_file : Machine → ℤ → Machine × Outcome (Unit {0})
empty_file m fd =
    if m.opened && eqb_ℤ fd the_fd
    then (record m { bytes = pos 0 }, ok tt)
    else (m, err (codes "bad file descriptor"))

abbrev close_file : Machine → ℤ → Machine
close_file m fd = if eqb_ℤ fd the_fd then record m { opened = false } else m

abbrev pub machine : Kernel
machine = record {
  World = Machine;
  stat = λ m path. ok m.bytes;
  open_writable = λ m path. open_file m;
  ftruncate = empty_file;
  close = close_file;
  kill = λ m pid sig. (m, ok tt);
}

abbrev pub one_file : Files machine
one_file = record {
  File = Unit {0};
  file_at = λ m path. some tt;
  size = λ m f. m.bytes;
  held = λ m fd. if m.opened && eqb_ℤ fd the_fd then some tt else none;
}

given : {A : Type 0} (a b : A) → ok a ≡ ok b → a ≡ b
given a b e = cc

opens :
    (bytes : ℤ) (opened : Bool) (sent : List (List ℕ)) (fd : ℤ)
    → let m : Machine = record { bytes = bytes; opened = opened; sent = sent } in
      (open_file m).1 ≡ ok fd
      → (one_file.held m fd ≡ none)
        × ((f : Unit {0}) → (open_file m).0.bytes ≡ m.bytes)
        × ((other : ℤ)
            → one_file.held (open_file m).0 other
              ≡ (if eqb_ℤ other fd then some tt else one_file.held m other))
opens bytes true sent fd e = cc
opens bytes false sent fd e = (
  refl,
  λ f. refl,
  λ other. ap (λ t. if eqb_ℤ other t then some tt else none) (given the_fd fd e),
)

fails :
    (bytes : ℤ) (opened : Bool) (sent : List (List ℕ)) (reason : List ℕ)
    → let m : Machine = record { bytes = bytes; opened = opened; sent = sent } in
      (open_file m).1 ≡ err reason → Unchanged machine one_file m (open_file m).0
fails bytes true sent reason e = record { sizes = λ f. refl; fds = λ fd. refl }
fails bytes false sent reason e = cc

empties :
    (m : Machine) (fd : ℤ) (b : Bool)
    → m.opened && eqb_ℤ fd the_fd ≡ b
    → (reason : List ℕ) → (empty_file m fd).1 ≡ err reason
    → Unchanged machine one_file m (empty_file m fd).0
empties m fd true h reason e = cc (rw h at e)
empties m fd false h reason e = rw h (record { sizes = λ f. refl; fds = λ fd. refl })

held_other :
    (m : Machine) (fd : ℤ)
    → one_file.held m fd ≡ some tt
    → ((empty_file m fd).0.bytes ≡ pos 0)
      × ((other : ℤ) → one_file.held (empty_file m fd).0 other ≡ one_file.held m other)
held_other m fd h = elim (Bool-cases (m.opened && eqb_ℤ fd the_fd)) [
  | inl here ↦ rw here (refl, λ other. refl)
  | inr away ↦ cc (rw away at h)
]

abbrev holder : Bool → Bool → Option (Unit {0})
holder opened here = if opened && here then some tt else none

unless_here : (a b : Bool) → holder false b ≡ (if b then none else holder a b)
unless_here true true = refl
unless_here true false = refl
unless_here false true = refl
unless_here false false = refl

unless_away : (a b : Bool) → b ≡ false → holder a b ≡ none
unless_away true b h = rw h
unless_away false b h = refl

closes :
    (m : Machine) (fd : ℤ) (other : ℤ)
    → one_file.held (close_file m fd) other
      ≡ (if eqb_ℤ other fd then none else one_file.held m other)
closes m fd other = elim (Bool-cases (eqb_ℤ fd the_fd)) [
  | inl here ↦ rw (here, eqb_ℤ→eq fd the_fd here) (unless_here m.opened (eqb_ℤ other the_fd))
  | inr away ↦ elim (Bool-cases (eqb_ℤ other fd)) [
    | inl same ↦
        rw (away, same)
          (unless_away m.opened (eqb_ℤ other the_fd)
            (ap (λ t. eqb_ℤ t the_fd) (eqb_ℤ→eq other fd same) ∙ away))
    | inr differs ↦ rw (away, differs)
  ]
]

kept : (m : Machine) (fd : ℤ) → (close_file m fd).bytes ≡ m.bytes
kept m fd = elim (Bool-cases (eqb_ℤ fd the_fd)) [ inl here ↦ rw here | inr away ↦ rw away ]

pub machine-Documented : Documented machine one_file
machine-Documented = record {
  stat_ok = λ m path n e. (tt, refl, given m.bytes n e);
  open_err = λ m path reason e. fails m.bytes m.opened m.sent reason e;
  open_ok = λ m path fd e. opens m.bytes m.opened m.sent fd e;
  ftruncate_err = λ m fd reason e. empties m fd (m.opened && eqb_ℤ fd the_fd) refl reason e;
  ftruncate_ok = λ m fd f done h.
      ((held_other m fd h).0, (λ g apart. absurd (apart refl)), (held_other m fd h).1);
  close_lem = λ m fd. ((λ f. kept m fd), closes m fd);
}
