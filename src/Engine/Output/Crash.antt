-- ===== src/Engine/Output/Crash.antt =====
-- What the output directory holds wherever the writing stops.
use mathlib.Core.Path.{subst}
use sandbox_tester.Engine.Output.{
  part, whole, Files, FileStep, apply_step, apply_steps, write_json_atomically, report_json,
  done_json, output_steps,
}
use sandbox_tester.Common.{
  ==_refl, ℕ, zero, suc, String, ◌<>◌, ◌≡◌, refl, ◌∙◌, sym, Bool, false, some, List, [], ◌∷◌, ◌⊎◌,
  inl, inr, ◌==◌, string_eq, if◌then◌else◌,
}
use sandbox_tester.Common.Dict.{get, put, get-put, get-pop}
use sandbox_tester.Common.PosixPath.{FilePath}
use sandbox_tester.Engine.Json.{Json}
use sandbox_tester.Engine.Models.{CapabilityGroupResult}

-- The files when the process has taken so many of its steps.
abbrev pub files_after : ℕ → List FileStep → Files → Files
files_after zero steps files = files
files_after (suc n) [] files = files
files_after (suc n) (step ∷ steps) files = files_after n steps (apply_step step files)

files_after_none : (n : ℕ) (files : Files) → files_after n [] files ≡ files
files_after_none zero files = refl
files_after_none (suc n) files = refl

-- The report is the old one or the new one, and never a part; the file `done.json` is the old one, or
-- the new one and the report is the new one.
abbrev pub IsSound : Files → Files → Json → Json → Type 0
IsSound old now report finished =
    ((get now "report.json" ≡ get old "report.json")
      ⊎ (get now "report.json" ≡ some (whole report)))
    × ((get now "done.json" ≡ get old "done.json")
        ⊎ ((get now "done.json" ≡ some (whole finished))
            × (get now "report.json" ≡ some (whole report))))

-- One atomic write, seen at a name other than that of its temporary file.
pub get-write :
    (files : Files) (name other : String) (json : Json)
    → (other == name <> ".tmp") ≡ false
    → get (apply_steps (write_json_atomically name json) files) other
      ≡ (if other == name then some (whole json) else get files other)
unfolding apply_steps apply_step write_json_atomically
get-write files name other json h =
    let temporary = name <> ".tmp" in
    let opened = put files temporary part in
    let found : get (put opened temporary (whole json)) temporary ≡ some (whole json) =
      get-put opened temporary temporary (whole json) ∙ rw (==_refl {A = String} temporary) refl in
    rw found (simp (get-put, get-pop, h))

-- Before its last step, an atomic write changes the temporary file only.
get-writing_opened :
    (files : Files) (name other : String)
    → (other == name <> ".tmp") ≡ false
    → get (put files (name <> ".tmp") part) other ≡ get files other
get-writing_opened files name other h = simp (get-put, h)

get-writing_written :
    (files : Files) (name other : String) (json : Json)
    → (other == name <> ".tmp") ≡ false
    → get (put (put files (name <> ".tmp") part) (name <> ".tmp") (whole json)) other
      ≡ get files other
get-writing_written files name other json h = simp (get-put, h)

module _ (old : Files) (report finished : Json) where
  -- The second write, begun when the report is there.
  finishing :
      (n : ℕ) (now : Files)
      → get now "report.json" ≡ some (whole report)
      → get now "done.json" ≡ get old "done.json"
      → IsSound old (files_after n (write_json_atomically "done.json" finished) now) report finished
  unfolding write_json_atomically apply_step apply_steps string_eq
  finishing zero now there before = (inr there, inl before)
  finishing (suc zero) now there before = (
    inr (get-writing_opened now "done.json" "report.json" refl ∙ there),
    inl (get-writing_opened now "done.json" "done.json" refl ∙ before),
  )
  finishing (suc (suc zero)) now there before = (
    inr (get-writing_written now "done.json" "report.json" finished refl ∙ there),
    inl (get-writing_written now "done.json" "done.json" finished refl ∙ before),
  )
  finishing (suc (suc (suc n))) now there before =
      let ended = apply_steps (write_json_atomically "done.json" finished) now in
      let report_there : get ended "report.json" ≡ some (whole report) =
        get-write now "done.json" "report.json" finished refl ∙ there in
      subst (λ (files : Files). IsSound old files report finished) (sym (files_after_none n ended))
        (inr report_there, inr (get-write now "done.json" "done.json" finished refl, report_there))

-- Wherever the writing of a run's files stops, the report is the one that was there before, or the new
-- one as a whole; and `done.json` is the one that was there before, or it is the new one and the report
-- is the new one as a whole.
pub output_steps-IsSound :
    (n : ℕ) (directory : FilePath) (results : List CapabilityGroupResult)
    (serialize_evidence : Bool) (files : Files)
    → IsSound files
        (files_after n (output_steps directory results serialize_evidence) files)
        (report_json results serialize_evidence)
        (done_json directory)
unfolding output_steps write_json_atomically apply_step apply_steps string_eq
output_steps-IsSound zero directory results serialize files = (inl refl, inl refl)
output_steps-IsSound (suc zero) directory results serialize files = (
  inl (get-writing_opened files "report.json" "report.json" refl),
  inl (get-writing_opened files "report.json" "done.json" refl),
)
output_steps-IsSound (suc (suc zero)) directory results serialize files =
    let report = report_json results serialize in
    (
      inl (get-writing_written files "report.json" "report.json" report refl),
      inl (get-writing_written files "report.json" "done.json" report refl),
    )
output_steps-IsSound (suc (suc (suc n))) directory results serialize files =
    let report = report_json results serialize in
    let now = apply_steps (write_json_atomically "report.json" report) files in
    finishing files report (done_json directory) n now
      (get-write files "report.json" "report.json" report refl)
      (get-write files "report.json" "done.json" report refl)
