-- ===== src/Askpass/Laws.antt =====
-- What stands before a program that is named in the environment, in gitway-cli/src/main.rs.
use gitway.Base.{
  String, ◌≡◌, refl, true, false, Option, none, some, Result, ok, err, Bool-cases, inl, inr,
}
use gitway.Base.Text.{is_empty_text, trim_end_matches}
use gitway.Errors.{Errors}
use gitway.Askpass.{
  Machine, Output, untrusted, use_askpass, given, text_given, answer, running, asking, try_askpass,
}

module _ {W : Type 0} (E : Errors) (M : Machine W E.Error) where
  -- The program that gave a passphrase, and why it was allowed to.
  pub record Answered (prompt p : String) (w : W) : Type 0 where
    pub program : String
    pub output : Output
    pub raw : String
    pub named : M.env "SSH_ASKPASS" ≡ some program
    pub absolute : M.is_absolute program ≡ true
    pub wanted : use_askpass E M ≡ true
    pub trusted : untrusted (M.permissions program w) ≡ false
    pub ran : (M.run program prompt w).0 ≡ ok output
    pub succeeded : output.succeeded ≡ true
    pub utf8 : output.stdout ≡ some raw
    pub trimmed : p ≡ trim_end_matches b'\n' raw
    pub not_empty : is_empty_text p ≡ false

  given-ok : (s p : String) → given E M s ≡ ok (some p) → (p ≡ s) × (is_empty_text p ≡ false)
  given-ok s p h = elim (Bool-cases (is_empty_text s)) [
    | inl empty ↦ cc (rw empty at h)
    | inr full ↦ let same : p ≡ s = cc (rw full at h) in (same, rw (same, full))
  ]

  text_given-ok :
      (o : Option String) (p : String)
      → text_given E M o ≡ ok (some p)
      → (raw : String) × (o ≡ some raw)
        × (p ≡ trim_end_matches b'\n' raw)
        × (is_empty_text p ≡ false)
  text_given-ok none p h = cc
  text_given-ok (some raw) p h =
      let (same, full) = given-ok (trim_end_matches b'\n' raw) p h in (raw, refl, same, full)

  answer-ok :
      (program p : String) (r : Result String Output)
      → answer E M program r ≡ ok (some p)
      → (output : Output) × (r ≡ ok output)
        × (output.succeeded ≡ true)
        × (text_given E M output.stdout ≡ ok (some p))
  unfolding answer
  answer-ok program p (err e) h = cc
  answer-ok program p (ok output) h = elim (Bool-cases (output.succeeded)) [
    | inl good ↦ (output, refl, good, rw good at h)
    | inr bad ↦ cc (rw bad at h)
  ]

  running-Answered :
      (program prompt p : String) (w : W)
      → M.env "SSH_ASKPASS" ≡ some program
      → M.is_absolute program ≡ true
      → use_askpass E M ≡ true
      → (running E M program prompt w).0 ≡ ok (some p)
      → Answered prompt p w
  unfolding running
  running-Answered program prompt p w named absolute wanted h =
      elim (Bool-cases (untrusted (M.permissions program w))) [
        | inl bad ↦ cc (rw bad at h)
        | inr trusted ↦
            let (output, ran, succeeded, text) = answer-ok program p _ (rw trusted at h) in
            let (raw, utf8, trimmed, not_empty) = text_given-ok output.stdout p text in
            record {
              program = program;
              output = output;
              raw = raw;
              named = named;
              absolute = absolute;
              wanted = wanted;
              trusted = trusted;
              ran = ran;
              succeeded = succeeded;
              utf8 = utf8;
              trimmed = trimmed;
              not_empty = not_empty;
            }
      ]

  asking-Answered :
      (o : Option String) (prompt p : String) (w : W)
      → M.env "SSH_ASKPASS" ≡ o
      → (asking E M o prompt w).0 ≡ ok (some p)
      → Answered prompt p w
  unfolding asking
  asking-Answered none prompt p w e h = cc
  asking-Answered (some program) prompt p w e h = elim (Bool-cases (M.is_absolute program)) [
    | inr relative ↦ cc (rw relative at h)
    | inl absolute ↦ elim (Bool-cases (use_askpass E M)) [
      | inr unwanted ↦ cc (rw (absolute, unwanted) at h)
      | inl wanted ↦
          running-Answered program prompt p w e absolute wanted (rw (absolute, wanted) at h)
    ]
  ]

  -- A passphrase that `try_askpass` gives comes from the program named by SSH_ASKPASS: its path is
  -- absolute, the environment asks for it, its file is not world-writable, it was run with the prompt
  -- and succeeded, and the passphrase is its output without trailing line ends, and not empty.
  pub try_askpass-Answered :
      (prompt p : String) (w : W) → (try_askpass E M prompt w).0 ≡ ok (some p) → Answered prompt p w
  unfolding try_askpass
  try_askpass-Answered prompt p w h = asking-Answered (M.env "SSH_ASKPASS") prompt p w refl h
