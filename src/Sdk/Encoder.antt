-- ===== src/Sdk/Encoder.antt =====
-- packages/nouns-sdk/src/image/png-collection-encoder.ts: a collection of images over one palette, and
-- the folders that it is written to.
pub mod Format
use unouns_monorepo.Base.{
  ℕ, zero, suc, String, Bool, true, false, not, ◌&&◌, Option, none, some, List, [], ◌∷◌, ◌++◌,
  str_eq, if◌then◌else◌, map,
}
use unouns_monorepo.Base.Table.{Table, load, save}
use unouns_monorepo.Base.Text.{Text, same_text}
use unouns_monorepo.Sdk.Image.{Image, Colors, to_rle}

-- `Map.set` on a colour: the index of a colour that is there is replaced in its place
unfoldable pub set_color : Colors → Text → ℕ → Colors
unfolding same_text
set_color [] color index = (color, index) ∷ []
set_color ((key, n) ∷ colors) color index =
    let rest = set_color colors color index in
    if same_text key color then (key, index) ∷ colors else (key, n) ∷ rest

-- `colors.forEach((color, index) => ...)`, from an index on
unfoldable pub set_colors : Colors → List Text → ℕ → Colors
unfolding set_color
set_colors colors [] index = colors
set_colors colors (color ∷ given) index =
    set_colors (set_color colors color index) given (suc index)

pub record PngCollectionEncoder : Type 0 where
  pub colors : Colors
  pub images : Table Text
  pub folders : Table (List String)

-- the constructor; the transparent colour is there first
unfoldable pub new_encoder : Option (List Text) → PngCollectionEncoder
unfolding set_colors
new_encoder none = record { colors = ([], 0) ∷ []; images = []; folders = [] }
new_encoder (some given) = record {
  colors = set_colors (([], 0) ∷ []) given 0;
  images = [];
  folders = [];
}

abbrev pub or_empty : Option (List String) → List String
or_empty none = []
or_empty (some names) = names

-- an empty folder name is falsy
abbrev pub add_to_folder : Option String → String → Table (List String) → Table (List String)
add_to_folder none name folders = folders
add_to_folder (some folder) name folders =
    if str_eq folder ""
    then folders
    else save folders folder (or_empty (load folders folder) ++ name ∷ [])

-- the encoder and the text of the image
unfoldable pub encode_image :
    String → Image → Option String → PngCollectionEncoder → PngCollectionEncoder × Text
unfolding to_rle load save
encode_image name png folder e =
    let (_, (colors, rle)) = to_rle png e.colors in
    (
      record {
        colors = colors;
        images = save e.images name rle;
        folders = add_to_folder folder name e.folders;
      },
      rle,
    )

-- `data` is undefined for a name without an image
pub record EncodedImage : Type 0 where
  pub filename : String
  pub content : Option Text

unfoldable pub delete : Table Text → String → Table Text
delete [] name = []
delete ((key, text) ∷ images) name =
    let rest = delete images name in if str_eq key name then images else (key, text) ∷ rest

-- the files of a folder, and the images that are left
unfoldable pub write_files : List String → Table Text → List EncodedImage × Table Text
unfolding load delete
write_files [] images = ([], images)
write_files (name ∷ names) images =
    let (files, left) = write_files names (delete images name) in
    (record { filename = name; content = load images name } ∷ files, left)

unfoldable pub write_folders :
    Table (List String)
    → Table (List EncodedImage)
    → Table Text
    → Table (List EncodedImage) × Table Text
unfolding write_files save
write_folders [] result images = (result, images)
write_folders ((folder, names) ∷ folders) result images =
    let (files, left) = write_files names images in
    write_folders folders (save result folder files) left

abbrev pub all_files : Table Text → List EncodedImage
all_files images = map (λ (name, text). record { filename = name; content = some text }) images

-- `if (images.size) data.root = ...`
abbrev pub write_root : Table (List EncodedImage) → Table Text → Table (List EncodedImage)
write_root result [] = result
write_root result (image ∷ images) = save result "root" (all_files (image ∷ images))

unfoldable pub format : Bool → PngCollectionEncoder → Table (List EncodedImage)
unfolding write_folders
format true e = write_root [] e.images
format false e = let (result, left) = write_folders e.folders [] e.images in write_root result left
