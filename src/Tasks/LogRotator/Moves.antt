-- ===== src/Tasks/LogRotator/Moves.antt =====
-- What the loop of `LogRotator::rotate` (src/tasks/log-rotator.cc) leaves on the disk.
use residue.Prelude.Map
use residue.Prelude.Map.{Map, is_some, find-insert}
use residue.Tasks.LogRotator.{Disk, Answers, full_path, is_full, move, rotate_item, rotate_items}
use residue.Tasks.RotateTarget.{BackupItem}
use residue.Prelude.{
  ◌≡◌, refl, sym, ap, ◌∙◌, subst, inl, inr, Bool, true, false, ◌&&◌, Option, none, some, List, [],
  ◌∷◌, ◌++◌, append_assoc, append-nil, arith, if◌then◌else◌, Bool-cases, All, Text, text_eq,
  text_eq_refl, All-map, All-both,
}

abbrev pub Differ : Text → Text → Type 0
Differ a b = (text_eq a b ≡ false) × (text_eq b a ≡ false)

-- No file is moved over another one, nor to where another one is moved from.
abbrev pub AreApart : List BackupItem → Type 0
AreApart [] = Unit
AreApart (i ∷ items) =
    All
      (λ j.
        Differ i.source_filename j.source_filename
        × Differ (full_path i) j.source_filename
        × Differ (full_path i) (full_path j))
      items
    × AreApart items

-- What is noted for the archive, and what is to be in it.
unfoldable pub noted : Disk → List BackupItem → Map Text
noted disk [] = []
noted disk (i ∷ items) =
    if is_full (disk i.source_filename)
    then (full_path i, i.target_filename) ∷ noted disk items
    else noted disk items

abbrev pub content_of : Option Text → Text
content_of none = []
content_of (some content) = content

unfoldable pub contents : Disk → List BackupItem → List (Text × Text)
contents disk [] = []
contents disk (i ∷ items) =
    if is_full (disk i.source_filename)
    then (i.target_filename, content_of (disk i.source_filename)) ∷ contents disk items
    else contents disk items

abbrev SameSources : Disk → Disk → List BackupItem → Type 0
SameSources d e items = All (λ i. e i.source_filename ≡ d i.source_filename) items

noted-same :
    (d e : Disk) (items : List BackupItem) → SameSources d e items → noted e items ≡ noted d items
unfolding noted
noted-same d e [] h = refl
noted-same d e (i ∷ items) h = rw (h.0, noted-same d e items h.1) refl

contents-same :
    (d e : Disk) (items : List BackupItem)
    → SameSources d e items
    → contents e items ≡ contents d items
unfolding contents
contents-same d e [] h = refl
contents-same d e (i ∷ items) h = rw (h.0, contents-same d e items h.1) refl

insert_absent :
    (m : Map Text) (k v : Text) → Map.find m k ≡ none → Map.insert m k v ≡ m ++ (k, v) ∷ []
unfolding Map.find Map.insert
insert_absent [] k v h = refl
insert_absent ((j, w) ∷ m) k v h = ground (arith, insert_absent m k v)

-- Each file that has been moved is where it was moved to.
abbrev pub HaveArrived : Disk → Disk → List BackupItem → Type 0
HaveArrived disk after items =
    All
      (λ i. is_full (disk i.source_filename) ≡ true → after (full_path i) ≡ disk i.source_filename)
      items

-- How one item stands to a later one.
abbrev Apart : BackupItem → BackupItem → Type 0
Apart i j =
    Differ i.source_filename j.source_filename
    × Differ (full_path i) j.source_filename
    × Differ (full_path i) (full_path j)

module _ (answers : Answers) where
  rotate_item_other :
      (i : BackupItem) (disk : Disk) (files : Map Text) (p : Text)
      → text_eq i.source_filename p ≡ false
      → text_eq (full_path i) p ≡ false
      → (rotate_item answers i disk files).0 p ≡ disk p
  unfolding rotate_item
  rotate_item_other i disk files p s f =
      elim (Bool-cases
        (is_full (disk i.source_filename) && answers.renames i.source_filename (full_path i))) [
          | inl moves ↦ rw moves (rw (f, s) refl)
          | inr stays ↦ rw stays refl
        ]

  -- A path that is not one of the items stays as it is.
  rotate_items_other :
      (items : List BackupItem) (disk : Disk) (files : Map Text) (p : Text)
      → All (λ i. (text_eq i.source_filename p ≡ false) × (text_eq (full_path i) p ≡ false)) items
      → (rotate_items answers items disk files).1 p ≡ disk p
  unfolding rotate_items
  rotate_items_other [] disk files p h = refl
  rotate_items_other (i ∷ items) disk files p h =
      let (disk1, files1) = rotate_item answers i disk files in
      elim (Bool-cases (answers.path_ready i.destination_dir)) [
        | inl ready ↦ rw ready (
            rotate_items_other items disk1 files1 p h.1
            ∙ rotate_item_other i disk files p h.0.0 h.0.1)
        | inr missing ↦ rw missing refl
      ]

  sources_after :
      (i : BackupItem) (items : List BackupItem) (disk : Disk) (files : Map Text)
      → All (Apart i) items
      → SameSources disk (rotate_item answers i disk files).0 items
  sources_after i items disk files apart =
      All-map (Apart i)
        (λ j. (rotate_item answers i disk files).0 j.source_filename ≡ disk j.source_filename) items
        (λ j a. rotate_item_other i disk files j.source_filename a.0.0 a.1.0) apart

  module _ (ready : (d : Text) → answers.path_ready d ≡ true)
      (renamed : (s d : Text) → answers.renames s d ≡ true) where
    pub rotate_items_finished :
        (items : List BackupItem) (disk : Disk) (files : Map Text)
        → (rotate_items answers items disk files).0 ≡ true
    unfolding rotate_items
    rotate_items_finished [] disk files = refl
    rotate_items_finished (i ∷ items) disk files =
        rw (ready i.destination_dir) (rotate_items_finished items _ _)

    rotate_items_step :
        (i : BackupItem) (items : List BackupItem) (disk : Disk) (files : Map Text)
        → rotate_items answers (i ∷ items) disk files
          ≡ rotate_items answers items
              (rotate_item answers i disk files).0
              (rotate_item answers i disk files).1
    unfolding rotate_items
    rotate_items_step i items disk files = rw (ready i.destination_dir) refl

    rotate_item_full :
        (i : BackupItem) (disk : Disk) (files : Map Text)
        → is_full (disk i.source_filename) ≡ true
        → rotate_item answers i disk files ≡ (
          move answers i.source_filename (full_path i) disk,
          Map.insert files (full_path i) i.target_filename,
        )
    unfolding rotate_item
    rotate_item_full i disk files h = rw (h, renamed i.source_filename (full_path i)) refl

    rotate_item_empty :
        (i : BackupItem) (disk : Disk) (files : Map Text)
        → is_full (disk i.source_filename) ≡ false
        → rotate_item answers i disk files ≡ (disk, files)
    unfolding rotate_item
    rotate_item_empty i disk files h = rw h refl

    still_absent :
        (files : Map Text) (i j : BackupItem)
        → Apart i j
        → Map.find files (full_path j) ≡ none
        → Map.find files (full_path i) ≡ none
        → Map.find (Map.insert files (full_path i) i.target_filename) (full_path j) ≡ none
    still_absent files i j a h k =
        find-insert files (full_path i) (full_path j) i.target_filename ∙ rw (k, a.2.0) h

    pub files-rotate_items :
        (items : List BackupItem) (disk : Disk) (files : Map Text)
        → AreApart items
        → All (λ i. Map.find files (full_path i) ≡ none) items
        → (rotate_items answers items disk files).2 ≡ files ++ noted disk items
    unfolding noted rotate_items
    files-rotate_items [] disk files apart absent = sym (append-nil files)
    files-rotate_items (i ∷ items) disk files apart absent =
        let same = sources_after i items disk files apart.0 in
        elim (Bool-cases (is_full (disk i.source_filename))) [
          | inl full ↦
              let disk1 = move answers i.source_filename (full_path i) disk in
              let files1 = Map.insert files (full_path i) i.target_filename in
              let moved = rotate_item_full i disk files full in
              let absent1 =
                All-map (λ j. Apart i j × (Map.find files (full_path j) ≡ none))
                  (λ j. Map.find files1 (full_path j) ≡ none) items
                  (λ j h. still_absent files i j h.0 h.1 absent.0)
                  (All-both (Apart i) (λ j. Map.find files (full_path j) ≡ none) items apart.0
                    absent.1) in
              let same1 = subst (λ (r : Disk × Map Text). SameSources disk r.0 items) moved same in
              rw full (
                ap (λ (r : Bool × Disk × Map Text). r.2) (rotate_items_step i items disk files)
                ∙ (ap (λ (r : Disk × Map Text). (rotate_items answers items r.0 r.1).2) moved
                    ∙ (files-rotate_items items disk1 files1 apart.1 absent1
                        ∙ (ap (λ l. l ++ noted disk1 items)
                              (insert_absent files (full_path i) i.target_filename absent.0)
                            ∙ (append_assoc files ((full_path i, i.target_filename) ∷ [])
                                  (noted disk1 items)
                                ∙ ap (λ l. files ++ (full_path i, i.target_filename) ∷ l)
                                    (noted-same disk disk1 items same1))))))
          | inr empty ↦ rw empty (
              ap (λ (r : Bool × Disk × Map Text). r.2) (rotate_items_step i items disk files)
              ∙ (ap (λ (r : Disk × Map Text). (rotate_items answers items r.0 r.1).2)
                    (rotate_item_empty i disk files empty)
                  ∙ files-rotate_items items disk files apart.1 absent.1))
        ]

    pub rotate_items-HaveArrived :
        (items : List BackupItem) (disk : Disk) (files : Map Text)
        → AreApart items
        → HaveArrived disk (rotate_items answers items disk files).1 items
    rotate_items-HaveArrived [] disk files apart = tt
    rotate_items-HaveArrived (i ∷ items) disk files apart =
        let (disk1, files1) = rotate_item answers i disk files in
        let after = (rotate_items answers items disk1 files1).1 in
        let same = sources_after i items disk files apart.0 in
        let arrived : is_full (disk i.source_filename) ≡ true
            → after (full_path i) ≡ disk i.source_filename =
          λ full.
            rotate_items_other items disk1 files1 (full_path i) (
              All-map (Apart i)
                (λ j.
                  (text_eq j.source_filename (full_path i) ≡ false)
                  × (text_eq (full_path j) (full_path i) ≡ false))
                items (λ j a. (a.1.1, a.2.1)) apart.0)
            ∙ (ap (λ (r : Disk × Map Text). r.0 (full_path i)) (rotate_item_full i disk files full)
                ∙ rw (text_eq_refl (full_path i)) refl) in
        let later =
          All-map
            (λ j.
              (disk1 j.source_filename ≡ disk j.source_filename)
              × (is_full (disk1 j.source_filename) ≡ true
                  → after (full_path j) ≡ disk1 j.source_filename))
            (λ j.
              is_full (disk j.source_filename) ≡ true
              → after (full_path j) ≡ disk j.source_filename)
            items (λ j h full. h.1 (ap is_full h.0 ∙ full) ∙ h.0)
            (All-both (λ j. disk1 j.source_filename ≡ disk j.source_filename)
              (λ j.
                is_full (disk1 j.source_filename) ≡ true
                → after (full_path j) ≡ disk1 j.source_filename)
              items same (rotate_items-HaveArrived items disk1 files1 apart.1)) in
        subst (λ (r : Bool × Disk × Map Text). HaveArrived disk r.1 (i ∷ items))
          (sym (rotate_items_step i items disk files)) (arrived, later)
