-- ===== src/Tests/Files.antt =====
-- A bucket in memory, and requests of internal/media over it.
use chatroom_server.Base.{
  ℕ, ◌≡◌, refl, String, Bool, true, false, ◌&&◌, ◌||◌, Option, none, some, List, [], ◌∷◌, take,
  if◌then◌else◌, arith, Option-cases, inl, inr,
}
use mathlib.Core.Option
use chatroom_server.Action.{Result}
use chatroom_server.Http.{Response, file_body}
use chatroom_server.World.{response_of}
use chatroom_server.Auth.Token.{parse_token}
use chatroom_server.Storage.{Object, Store, IsStore, Minio, get, minio_store, new_minio_store}
use chatroom_server.Storage.Bucket.{IsMinio, minio_store-IsStore}
use chatroom_server.Media.Thumbnail.{thumbnail_size}
use chatroom_server.Media.Handler.{
  File, Images, read_up_to, read_image, new_id, make_thumbnail, store_image, upload_image, upload,
  download,
}
use chatroom_server.Media.Handler.Files.{status_of}
use chatroom_server.Media.Handler.Checks.{is_accepted, upload-checks}
use chatroom_server.Media.Handler.Downloads.{download-held}
use chatroom_server.Tests.Accounts.{jwt}
use chatroom_server.Tests.Fractions.{fractions}
use text.Mathlib.Text.{◌==◌}
use text.Mathlib.TextEquality.{eq_iff}

program : Unit {0}
unfolding get new_minio_store thumbnail_size read_up_to read_image new_id make_thumbnail store_image
    upload_image upload download parse_token
program = tt

abbrev pub memory_minio : Minio
memory_minio = record {
  State = (String → Bool) × (String → String → Option Object);
  bucket_exists = λ s b. (some (s.0 b), s);
  make_bucket = λ s b. (true, (λ c. c == b || s.0 c, s.1));
  put_object = λ s b k data' size type. (
    true,
    (
      s.0,
      λ c j.
          if c == b && j == k
          then some (record { content = take size data'; content_type = type })
          else s.1 c j,
    ),
  );
  get_object = λ s b k. (Option.map (λ o. o.content) (s.1 b k), s);
  stat = λ s b k. (Option.map (λ o. o.content_type) (s.1 b k), s);
  has_bucket = λ s b. s.0 b;
  object = λ s b k. s.1 b k;
}

pub memory_minio-IsMinio : IsMinio memory_minio
memory_minio-IsMinio = record {
  exists-has = λ s b h. ground arith;
  make-has = λ s b h. ground (arith, (eq_iff b b).1 refl);
  object-put = λ s b k d n t h. ground (arith, (eq_iff b b).1 refl, (eq_iff k k).1 refl);
  object-put_ne = λ s b k j d n t h. ground (arith, eq_iff j k);
  get-object = λ s b k d h. elim (Option-cases (s.1 b k)) [
    | inl e ↦ absurd (ground (arith, e))
    | inr (o, e) ↦ (o, e, ground (arith, e))
  ];
  object-get = λ s b k j. refl;
  stat-object = λ s b k t h. elim (Option-cases (s.1 b k)) [
    | inl e ↦ absurd (ground (arith, e))
    | inr (o, e) ↦ (o, e, ground (arith, e))
  ];
  object-stat = λ s b k j. refl;
}

minio_store-IsStore_example : IsStore (minio_store memory_minio "media")
minio_store-IsStore_example = minio_store-IsStore memory_minio memory_minio-IsMinio "media"

abbrev decode : List ℕ → Option (ℕ × ℕ)
decode (w ∷ (h ∷ [])) = some (w, h)
decode data' = none

-- An image is its width and its height.
abbrev pub plain_images : Images
plain_images = record {
  Image = ℕ × ℕ;
  decode = decode;
  width = λ i. i.0;
  height = λ i. i.1;
  scaled = λ i size. size.0 ∷ (size.1 ∷ []);
}

abbrev photo : File
photo = record {
  header_type = "image/png";
  filename = "a.png";
  size = 2;
  content = 640 ∷ (480 ∷ []);
  broken = false;
}

abbrev pub media : Store
media = minio_store memory_minio "media"

abbrev pub empty_bucket : media.State
empty_bucket = ((λ b. b == "media"), λ b k. none)

abbrev photo_stored : media.State
photo_stored =
    (upload_image media plain_images fractions (10 ∷ []) (11 ∷ []) photo "image/png" empty_bucket).1

abbrev downloaded : String → Result Response Response × media.State
downloaded id = download media jwt "key" "token" 50 id photo_stored

thumbnail_stored :
    get memory_minio "media" photo_stored "0b"
    ≡ (some (record { content = 320 ∷ (240 ∷ []); content_type = "image/jpeg" }), photo_stored)
unfolding program
thumbnail_stored = refl

download-held_example :
    (uid : ℕ) × ((o : Object) × ((parse_token jwt "token" "key" 50 ≡ some uid)
        × ((media.held photo_stored "0a" ≡ some o)
            × ((response_of (downloaded "0a").0).body ≡ file_body o.content_type o.content))))
unfolding program
download-held_example =
    download-held media (minio_store-IsStore memory_minio memory_minio-IsMinio "media") jwt "key"
      "token" 50 "0a" photo_stored refl

abbrev no_extension : String → String
no_extension filename = ""

abbrev photo_upload : Result Response Response × media.State
photo_upload =
    upload media plain_images fractions no_extension (10 ∷ []) (11 ∷ []) (some (some photo))
      empty_bucket

photo_accepted : (response_of photo_upload.0).status ≡ 200
unfolding program
photo_accepted = refl

upload-checks_example :
    (status_of photo_upload ≡ 400 → photo_upload.1 ≡ empty_bucket)
    × (status_of photo_upload ≡ 200
        → (f : File) × ((some (some photo) ≡ some (some f)) × (is_accepted no_extension f ≡ true)))
upload-checks_example =
    upload-checks media plain_images fractions (10 ∷ []) (11 ∷ []) empty_bucket no_extension
      (some (some photo))
