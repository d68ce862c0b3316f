-- ===== src/Sdk/Encoder/Format.antt =====
-- That no image is lost when the collection is written to its folders.
use unouns_monorepo.Base.{
  String, ◌≡◌, ◌⊎◌, inl, inr, refl, ap, ◌∙◌, arith, Bool, true, false, Option, some, List, [], ◌∷◌,
  str_eq, eq_iff, if◌then◌else◌, Bool-cases,
}
use unouns_monorepo.Base.Table.{Table, load, save, load-save, load-save_self}
use unouns_monorepo.Base.Text.{Text}
use unouns_monorepo.Sdk.Encoder.{
  PngCollectionEncoder, EncodedImage, delete, write_files, write_folders, all_files, write_root,
  format,
}

abbrev file_of : String → Option Text → EncodedImage
file_of name content = record { filename = name; content = content }

module _ (name : String) (text : Text) where
  -- the image is among the files
  abbrev pub Has : List EncodedImage → Type 0
  Has [] = ⊥
  Has (file ∷ files) = (file ≡ record { filename = name; content = some text }) ⊎ Has files

  abbrev pub IsHere : Table Text → Type 0
  IsHere images = load images name ≡ some text

load-delete :
    (images : Table Text) (name other : String)
    → str_eq other name ≡ false
    → load (delete images other) name ≡ load images name
unfolding load delete
load-delete [] name other h = refl
load-delete ((key, text) ∷ images) name other h =
    ground
      (arith, load-delete images name other h, eq_iff key other, eq_iff key name, eq_iff other name)

-- the file of a name is that of its image
first_file :
    (name other : String) (text : Text) (images : Table Text)
    → str_eq other name ≡ true
    → IsHere name text images
    → file_of other (load images other) ≡ file_of name (some text)
first_file name other text images same here =
    let equal : other ≡ name = (eq_iff other name).0 same in
    ap (λ n. file_of n (load images n)) equal ∙ ap (file_of name) here

either-Has :
    (name : String) (text : Text) (file : EncodedImage) (files : List EncodedImage)
    (left : Table Text)
    → Has name text files ⊎ IsHere name text left
    → Has name text (file ∷ files) ⊎ IsHere name text left
either-Has name text file files left (inl has) = inl (inr has)
either-Has name text file files left (inr here) = inr here

write_files-Has :
    (name : String) (text : Text) (names : List String) (images : Table Text)
    → IsHere name text images
    → let (files, left) = write_files names images in Has name text files ⊎ IsHere name text left
unfolding write_files
write_files-Has name text [] images here = inr here
write_files-Has name text (n ∷ names) images here = elim (Bool-cases (str_eq n name)) [
  | inl same ↦ inl (inl (first_file name n text images same here))
  | inr other ↦
      either-Has name text _ _ _
        (write_files-Has name text names (delete images n) (load-delete images name n other ∙ here))
]

-- the folder is none of the list
abbrev pub Fresh : String → Table (List String) → Type 0
Fresh f [] = Unit
Fresh f ((folder, names) ∷ folders) = (str_eq folder f ≡ false) × Fresh f folders

-- No two folders have one name, and none is called "root".
abbrev pub Distinct : Table (List String) → Type 0
Distinct [] = Unit
Distinct ((folder, names) ∷ folders) =
    (str_eq "root" folder ≡ false) × Fresh folder folders × Distinct folders

-- the image is in a folder that is not written again
record IsWritten (name : String) (text : Text) (folders : Table (List String))
    (result : Table (List EncodedImage)) : Type 0 where
  folder : String
  files : List EncodedImage
  row : load result folder ≡ some files
  has : Has name text files
  fresh : Fresh folder folders
  not_root : str_eq "root" folder ≡ false

save-other :
    (result : Table (List EncodedImage)) (k f : String) (files : List EncodedImage)
    → str_eq k f ≡ false
    → load (save result k files) f ≡ load result f
save-other result k f files h =
    load-save result k f files ∙ ap (λ t. if t then some files else load result f) h

keep-IsWritten :
    (name : String) (text : Text) (folder : String) (names : List String)
    (folders : Table (List String)) (result : Table (List EncodedImage)) (files : List EncodedImage)
    → IsWritten name text ((folder, names) ∷ folders) result
    → IsWritten name text folders (save result folder files)
keep-IsWritten name text folder names folders result files w = record {
  folder = w.folder;
  files = w.files;
  row = save-other result folder w.folder files w.fresh.0 ∙ w.row;
  has = w.has;
  fresh = w.fresh.1;
  not_root = w.not_root;
}

new-IsWritten :
    (name : String) (text : Text) (folder : String) (names : List String)
    (folders : Table (List String)) (result : Table (List EncodedImage)) (files : List EncodedImage)
    → Distinct ((folder, names) ∷ folders)
    → Has name text files
    → IsWritten name text folders (save result folder files)
new-IsWritten name text folder names folders result files distinct has = record {
  folder = folder;
  files = files;
  row = load-save_self result folder files;
  has = has;
  fresh = distinct.1;
  not_root = distinct.0;
}

-- one folder more is written
folder_step :
    (name : String) (text : Text) (folder : String) (names : List String)
    (folders : Table (List String)) (result : Table (List EncodedImage)) (images : Table Text)
    → Distinct ((folder, names) ∷ folders)
    → IsWritten name text ((folder, names) ∷ folders) result ⊎ IsHere name text images
    → let (files, left) = write_files names images in
      IsWritten name text folders (save result folder files) ⊎ IsHere name text left
folder_step name text folder names folders result images distinct (inl written) =
    inl (keep-IsWritten name text folder names folders result _ written)
folder_step name text folder names folders result images distinct (inr here) =
    elim (write_files-Has name text names images here) [
      | inl has ↦ inl (new-IsWritten name text folder names folders result _ distinct has)
      | inr left ↦ inr left
    ]

write_folders-IsWritten :
    (name : String) (text : Text) (folders : Table (List String))
    (result : Table (List EncodedImage)) (images : Table Text)
    → Distinct folders
    → IsWritten name text folders result ⊎ IsHere name text images
    → let (written, left) = write_folders folders result images in
      IsWritten name text [] written ⊎ IsHere name text left
unfolding write_folders
write_folders-IsWritten name text [] result images distinct h = h
write_folders-IsWritten name text ((folder, names) ∷ folders) result images distinct h =
    write_folders-IsWritten name text folders _ _ distinct.2
      (folder_step name text folder names folders result images distinct h)

all_files-Has :
    (name : String) (text : Text) (images : Table Text)
    → IsHere name text images
    → Has name text (all_files images)
unfolding load
all_files-Has name text [] here = ground arith
all_files-Has name text ((key, t) ∷ images) here = elim (Bool-cases (str_eq key name)) [
  | inl same ↦
      let equal : key ≡ name = (eq_iff key name).0 same in
      let content : some t ≡ some text = ground (arith, same) in
      inl ((λ i. file_of (equal i) (content i)))
  | inr other ↦ inr (all_files-Has name text images (ground (arith, other)))
]

-- The image is listed with its text in some folder of the result.
abbrev pub Listed : String → Text → Table (List EncodedImage) → Type 0
Listed name text result =
    (folder : String) × (files : List EncodedImage) × (load result folder ≡ some files)
    × Has name text files

nothing_here : (name : String) (text : Text) → IsHere name text [] → ⊥
unfolding load
nothing_here name text here = ground arith

write_root-Listed :
    (name : String) (text : Text) (result : Table (List EncodedImage)) (left : Table Text)
    → IsWritten name text [] result ⊎ IsHere name text left
    → Listed name text (write_root result left)
write_root-Listed name text result [] (inl w) = (w.folder, w.files, w.row, w.has)
write_root-Listed name text result (image ∷ left) (inl w) =
    (w.folder, w.files, save-other result "root" w.folder _ w.not_root ∙ w.row, w.has)
write_root-Listed name text result [] (inr here) = elim (nothing_here name text here) [ ]
write_root-Listed name text result (image ∷ left) (inr here) = (
  "root",
  all_files (image ∷ left),
  load-save_self result "root" (all_files (image ∷ left)),
  all_files-Has name text (image ∷ left) here,
)

-- Every image of a collection whose folders have different names, none of them "root", is listed with
-- its text in a folder of the written data, also where the data is flattened.
format-Listed :
    (flatten : Bool) (e : PngCollectionEncoder) (name : String) (text : Text)
    → Distinct e.folders
    → load e.images name ≡ some text
    → Listed name text (format flatten e)
unfolding format
format-Listed true e name text distinct here = write_root-Listed name text [] e.images (inr here)
format-Listed false e name text distinct here =
    write_root-Listed name text _ _
      (write_folders-IsWritten name text e.folders [] e.images distinct (inr here))
