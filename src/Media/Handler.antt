-- ===== src/Media/Handler.antt =====
-- internal/media/handler.go. The decoding of images, their scaling and the encoding of thumbnails are
-- image's and x/image's, and the types of file names are the system's; the definitions take them as
-- `Images` and `mime_by_extension`. `drawn` are the bytes that the calls of rand.Read give.
pub mod Files
pub mod Downloads
pub mod Checks
use chatroom_server.Base.{
  ℕ, suc, ◌+◌, ◌*◌, ◌/◌, ◌%◌, String, Bool, true, false, not, ◌||◌, Option, none, some, List, [],
  ◌∷◌, ltb, if◌then◌else◌, take, length,
}
use chatroom_server.Action.{Result, ok, err, Action, ◌>>=◌, ◌>>◌, pure, raise, raise_if, or_raise}
use chatroom_server.Http.{
  Response, UploadResponse, write_json, write_error, status_ok, bad_request, unauthorized,
  status_not_found, internal_error, uploaded, file_body,
}
use chatroom_server.Auth.Token.{Jwt, parse_token}
use chatroom_server.Storage.{Object, Store}
use chatroom_server.Media.Thumbnail.{Float, thumbnail_size}
use Prim.Native.String.{◌++◌, slice}
use text.Mathlib.Text.{◌==◌}

abbrev pub max_image_size : ℕ
max_image_size = 10 * 1_048_576

abbrev pub max_video_size : ℕ
max_video_size = 50 * 1_048_576

-- `allowedImageMime` and `allowedVideoMime`
abbrev pub allowed_image_mime : String → Bool
allowed_image_mime t =
    t == "image/jpeg" || (t == "image/png" || (t == "image/gif" || t == "image/webp"))

abbrev pub allowed_video_mime : String → Bool
allowed_video_mime t = t == "video/mp4" || t == "video/webm"

-- The uploaded file: the header's type, name and size, what reading it gives, and whether that fails.
pub record File : Type 0 where
  pub header_type : String
  pub filename : String
  pub size : ℕ
  pub content : List ℕ
  pub broken : Bool

-- `header.Header.Get("Content-Type")`, or the type that the name suggests.
abbrev pub type_of : (String → String) → File → String
type_of mime_by_extension f =
    if f.header_type == "" then mime_by_extension f.filename else f.header_type

-- The packages for images. `scaled` draws the image at a size and encodes it as JPEG.
pub record Images : Type 1 where
  pub Image : Type 0
  pub decode : List ℕ → Option Image
  pub width : Image → ℕ
  pub height : Image → ℕ
  pub scaled : Image → ℕ × ℕ → List ℕ

abbrev pub hex_digit : ℕ → String
hex_digit d = slice "0123456789abcdef" d (suc d)

-- `hex.EncodeToString`
abbrev pub hex : List ℕ → String
hex [] = ""
hex (b ∷ bs) = hex_digit (b / 16) ++ (hex_digit (b % 16) ++ hex bs)

-- `newID`
unfoldable pub new_id : List ℕ → String
new_id drawn = hex drawn

-- `io.ReadAll(io.LimitReader(file, limit+1))`, where more than the limit is an error.
unfoldable pub read_up_to : ℕ → File → Option (List ℕ)
read_up_to limit f =
    let data' = take (limit + 1) f.content in
    if f.broken || ltb limit (length data') then none else some data'

unfoldable pub read_image : File → Option (List ℕ)
read_image f = read_up_to max_image_size f

module _ (I : Images) (L : Float) where
  -- `makeThumbnail`
  unfoldable pub make_thumbnail : I.Image → List ℕ
  unfolding thumbnail_size
  make_thumbnail img = I.scaled img (thumbnail_size L (I.width img) (I.height img))

module _ (S : Store) where
  -- `h.store.Put`, with the response to its error.
  abbrev pub put_or : String → List ℕ → ℕ → String → Response → Action S.State Response (Unit {0})
  put_or key data' size content_type r s =
      let (done, s') = S.put s key data' size content_type in (if done then ok tt else err r, s')

  -- `uploadVideo`
  unfoldable pub upload_video : List ℕ → File → String → Action S.State Response Response
  upload_video drawn f content_type = do
    raise_if (ltb max_video_size f.size) (write_error bad_request "video too large (max 50MB)")
    put_or (new_id drawn) (take max_video_size f.content) f.size content_type
        (write_error internal_error "failed to store video")
    pure (
        write_json status_ok (
          uploaded (record {
            file_id = new_id drawn;
            thumb_id = "";
            mime = content_type;
            size = f.size;
            width = 0;
            height = 0;
          })))

  module _ (I : Images) (L : Float) where
    -- The rest of `uploadImage`, with the file read and decoded.
    unfoldable pub store_image :
        List ℕ → List ℕ → String → List ℕ → I.Image → Action S.State Response Response
    store_image drawn drawn_thumb content_type data' img = do
      put_or (new_id drawn) data' (length data') content_type
          (write_error internal_error "failed to store image")
      let thumb = make_thumbnail I L img
      put_or (new_id drawn_thumb) thumb (length thumb) "image/jpeg"
          (write_error internal_error "failed to store thumbnail")
      pure (
          write_json status_ok (
            uploaded (record {
              file_id = new_id drawn;
              thumb_id = new_id drawn_thumb;
              mime = content_type;
              size = length data';
              width = I.width img;
              height = I.height img;
            })))

    -- `uploadImage`
    unfoldable pub upload_image : List ℕ → List ℕ → File → String → Action S.State Response Response
    upload_image drawn drawn_thumb f content_type = do
      raise_if (ltb max_image_size f.size) (write_error bad_request "image too large (max 10MB)")
      data' ← or_raise (read_image f) (write_error bad_request "failed to read image")
      img ← or_raise (I.decode data') (write_error bad_request "invalid image data")
      store_image drawn drawn_thumb content_type data' img

    module _ (mime_by_extension : String → String) where
      -- `upload`. The form is none if it cannot be parsed, and its file is none if it has no such field.
      unfoldable pub upload :
          List ℕ → List ℕ → Option (Option File) → Action S.State Response Response
      upload drawn drawn_thumb form = do
        fields ← or_raise form (write_error bad_request "failed to parse upload (max 50MB)")
        f ← or_raise fields (write_error bad_request "file field is required")
        let content_type = type_of mime_by_extension f
        if allowed_image_mime content_type
            then upload_image drawn drawn_thumb f content_type
            else if allowed_video_mime content_type
            then upload_video drawn f content_type
            else raise (write_error bad_request ("unsupported file type: " ++ content_type))

  -- `h.store.Get`
  abbrev pub get_object : String → S.State → Result Response Object × S.State
  get_object id s =
      let (o, s') = S.get s id in
      elim o [
        | none ↦ (err (write_error status_not_found "file not found"), s')
        | some o' ↦ (ok o', s')
      ]

  -- `download`; `token` is the query's, and `ServeContent` sends the object, here the whole of it.
  unfoldable pub download : Jwt → String → String → ℕ → String → Action S.State Response Response
  unfolding parse_token
  download jwt secret token now id = do
    uid ← or_raise (parse_token jwt token secret now) (write_error unauthorized "invalid token")
    o ← get_object id
    pure (write_json status_ok (file_body o.content_type o.content))
