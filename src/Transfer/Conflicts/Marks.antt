-- ===== src/Transfer/Conflicts/Marks.antt =====
-- What `mark_conflict` writes into a file of a plan.
use mathlib.Core.Path.{◌≡◌, refl, ◌∙◌, sym, subst}
use mathlib.Core.Bool.{Bool, true, false}
use mathlib.Core.Option.{Option, none, some, some-injective, none-ne-some}
use mathlib.Core.List.{List, [], ◌∷◌, ◌++◌}
use mathlib.Core.Logic.{◌≢◌}
use term_connect.Shared.{if◌then◌else◌}
use term_connect.Shared.Text.{Text, lit, Text-discrete}
use term_connect.Shared.HashMap.{get}
use term_connect.Transfer.Job.{part_suffix}
use term_connect.Transfer.Plan.{
  root, current, up, normal, FilePath, FilePath-discrete, ExistingFile, PlannedFile,
  DestinationListing, parent, file_name, parent_and_name, destination_parent_and_name, or_empty,
  no_folder, mark_at, mark_conflict, mark_conflicts,
}

-- What the listings have of a name in a folder: nothing if the folder was not listed.
abbrev pub listed_in : Option DestinationListing → Text → Option ExistingFile
listed_in none name = none
listed_in (some listing) name = get Text-discrete listing name

abbrev pub listed : List (FilePath × DestinationListing) → FilePath → Text → Option ExistingFile
listed listings p name = listed_in (get FilePath-discrete listings p) name

-- Whether `o` is the file of that listing, where a folder is none.
abbrev pub IsFileOf : Option ExistingFile → Option ExistingFile → Type 0
IsFileOf entry none = (e : ExistingFile) → entry ≡ some e → e.is_dir ≡ true
IsFileOf entry (some e) = (entry ≡ some e) × (e.is_dir ≡ false)

-- `g` is the file `f` with what the listings have under its name and, as the part of an earlier copy,
-- what file they have under its name with `.part`; it is `f` itself where its path names nothing.
pub record IsMarkOf (listings : List (FilePath × DestinationListing)) (f g : PlannedFile)
    : Type 0 where
  pub same : g ≡ record f { existing = g.existing; partial = g.partial }
  pub existing_listed :
      (p : FilePath) (n : Text) → f.destination ≡ normal n ∷ p → g.existing ≡ listed listings p n
  pub partial_listed :
      (p : FilePath) (n : Text)
      → f.destination ≡ normal n ∷ p
      → IsFileOf (listed listings p (n ++ lit ".part")) g.partial
  pub unnamed : ((p : FilePath) (n : Text) → f.destination ≢ normal n ∷ p) → g ≡ f

-- The files of the one list are those of the other, marked, in their order.
abbrev pub AreMarksOf :
    List (FilePath × DestinationListing) → List PlannedFile → List PlannedFile → Type 0
AreMarksOf listings [] [] = Unit {0}
AreMarksOf listings [] (g ∷ gs) = ⊥
AreMarksOf listings (f ∷ fs) [] = ⊥
AreMarksOf listings (f ∷ fs) (g ∷ gs) = IsMarkOf listings f g × AreMarksOf listings fs gs

parent_and_name-normal :
    (d p : FilePath) (n : Text) → d ≡ normal n ∷ p → parent_and_name d ≡ some (p, n)
unfolding parent_and_name parent file_name
parent_and_name-normal d p n e = rw e refl

parent_and_name-some :
    (d : FilePath) (a : FilePath × Text) → parent_and_name d ≡ some a → d ≡ normal a.1 ∷ a.0
unfolding parent_and_name parent file_name
parent_and_name-some [] a e = cc
parent_and_name-some (root ∷ p) a e = cc
parent_and_name-some (current ∷ p) a e = cc
parent_and_name-some (up ∷ p) a e = cc
parent_and_name-some (normal n ∷ p) a e = cc

listed-or_empty :
    (o : Option DestinationListing) (n : Text) → get Text-discrete (or_empty o) n ≡ listed_in o n
unfolding get
listed-or_empty none n = refl
listed-or_empty (some listing) n = refl

IsFileOf-if :
    (e : ExistingFile) (folder : Bool)
    → e.is_dir ≡ folder
    → IsFileOf (some e) (if folder then none else some e)
IsFileOf-if e true f =
    λ e' h. subst (λ (x : ExistingFile). x.is_dir ≡ true) (some-injective _ _ h) f
IsFileOf-if e false f = (refl, f)

no_folder-IsFileOf : (o : Option ExistingFile) → IsFileOf o (no_folder o)
no_folder-IsFileOf none = λ e h. cc
no_folder-IsFileOf (some e) = IsFileOf-if e e.is_dir refl

mark_at-IsMarkOf :
    (listings : List (FilePath × DestinationListing)) (f : PlannedFile)
    (a : Option (FilePath × Text))
    → parent_and_name f.destination ≡ a
    → IsMarkOf listings f (mark_at listings f a)
unfolding mark_at
mark_at-IsMarkOf listings f none e = record {
  same = refl;
  existing_listed = λ p n at. absurd (none-ne-some _ (sym e ∙ parent_and_name-normal _ p n at));
  partial_listed = λ p n at. absurd (none-ne-some _ (sym e ∙ parent_and_name-normal _ p n at));
  unnamed = λ h. refl;
}
mark_at-IsMarkOf listings f (some (p, n)) e = record {
  same = refl;
  existing_listed = λ p' n' at.
      subst
        (λ (a : FilePath × Text).
          get Text-discrete (or_empty (get FilePath-discrete listings p)) n
          ≡ listed listings a.0 a.1)
        (some-injective _ _ (sym e ∙ parent_and_name-normal _ p' n' at))
        (listed-or_empty (get FilePath-discrete listings p) n);
  partial_listed = λ p' n' at.
      let part =
        get Text-discrete (or_empty (get FilePath-discrete listings p)) (n ++ part_suffix) in
      subst
        (λ (a : FilePath × Text).
          IsFileOf (listed listings a.0 (a.1 ++ lit ".part")) (no_folder part))
        (some-injective _ _ (sym e ∙ parent_and_name-normal _ p' n' at))
        (subst (λ (o : Option ExistingFile). IsFileOf o (no_folder part))
          (listed-or_empty (get FilePath-discrete listings p) (n ++ part_suffix))
          (no_folder-IsFileOf part));
  unnamed = λ h. absurd (h p n (parent_and_name-some f.destination (p, n) e));
}

pub mark_conflicts-AreMarksOf :
    (listings : List (FilePath × DestinationListing)) (fs : List PlannedFile)
    → AreMarksOf listings fs (mark_conflicts listings fs)
unfolding mark_conflicts mark_conflict destination_parent_and_name
mark_conflicts-AreMarksOf listings [] = tt
mark_conflicts-AreMarksOf listings (f ∷ fs) =
    (mark_at-IsMarkOf listings f _ refl, mark_conflicts-AreMarksOf listings fs)
