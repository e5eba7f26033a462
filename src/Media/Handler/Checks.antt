-- ===== src/Media/Handler/Checks.antt =====
-- Which uploads are accepted, and what a refused one leaves: internal/media/handler.go.
use chatroom_server.Base.{
  ℕ, ◌≡◌, refl, String, Bool, true, false, not, ◌&&◌, ◌||◌, Option, none, some, List, arith, ltb,
  ◌==◌, Option-cases, Bool-cases, inl, inr,
}
use chatroom_server.Storage.{Store}
use chatroom_server.Media.Thumbnail.{Float}
use chatroom_server.Media.Handler.{
  File, Images, max_image_size, max_video_size, allowed_image_mime, allowed_video_mime, type_of,
  read_image, store_image, upload_image, upload_video, upload,
}
use chatroom_server.Media.Handler.Files.{status_of}

-- The type is an allowed one, and the header's size is within the limit of its kind.
abbrev pub is_accepted : (String → String) → File → Bool
is_accepted mime_by_extension f =
    let t = type_of mime_by_extension f in
    (allowed_image_mime t && not (ltb max_image_size f.size))
    || (allowed_video_mime t && not (ltb max_video_size f.size))

module _ (S : Store) (I : Images) (L : Float) (drawn drawn_thumb : List ℕ) (s : S.State) where
  store_image-status :
      (content_type : String) (data' : List ℕ) (img : I.Image)
      → (status_of (store_image S I L drawn drawn_thumb content_type data' img s) == 400) ≡ false
  unfolding store_image
  store_image-status content_type data' img = ground arith

  module _ (f : File) (content_type : String) where
    -- An image is stored only if the header's size is within the limit; one that is refused leaves the store.
    upload_image-checks :
        (status_of (upload_image S I L drawn drawn_thumb f content_type s) ≡ 400
          → (upload_image S I L drawn drawn_thumb f content_type s).1 ≡ s)
        × (status_of (upload_image S I L drawn drawn_thumb f content_type s) ≡ 200
            → ltb max_image_size f.size ≡ false)
    unfolding upload_image
    upload_image-checks = elim (Bool-cases (ltb max_image_size f.size)) [
      | inl big ↦ (λ h. ground (arith, big), λ h. absurd (ground (arith, big, h)))
      | inr fits ↦ (
        λ h. elim (Option-cases (read_image f)) [
          | inl e ↦ ground (arith, fits, e)
          | inr (data', e) ↦ elim (Option-cases (I.decode data')) [
            | inl bad ↦ ground (arith, fits, e, bad)
            | inr (img, good) ↦
                absurd (ground (arith, h, fits, e, good, store_image-status content_type data' img))
          ]
        ],
        λ h. fits,
      )
    ]

    upload_video-checks :
        (status_of (upload_video S drawn f content_type s) ≡ 400
          → (upload_video S drawn f content_type s).1 ≡ s)
        × (status_of (upload_video S drawn f content_type s) ≡ 200
            → ltb max_video_size f.size ≡ false)
    unfolding upload_video
    upload_video-checks = elim (Bool-cases (ltb max_video_size f.size)) [
      | inl big ↦ (λ h. ground (arith, big), λ h. absurd (ground (arith, big, h)))
      | inr fits ↦ (λ h. absurd (ground (arith, h, fits)), λ h. fits)
    ]

  module _ (mime_by_extension : String → String) where
    -- An upload that answers with status 400 leaves the store as it is, and one that answers with status 200
    -- has a file, of an allowed type and of a size in its header that is within the limit of that type.
    pub upload-checks :
        (form : Option (Option File))
        → let uploads = upload S I L mime_by_extension drawn drawn_thumb form s in
          (status_of uploads ≡ 400 → uploads.1 ≡ s)
          × (status_of uploads ≡ 200
              → (f : File) × ((form ≡ some (some f)) × (is_accepted mime_by_extension f ≡ true)))
    unfolding upload
    upload-checks none = (λ h. refl, λ h. absurd (ground (arith, h)))
    upload-checks (some none) = (λ h. refl, λ h. absurd (ground (arith, h)))
    upload-checks (some (some f)) =
        let t = type_of mime_by_extension f in
        elim (Bool-cases (allowed_image_mime t)) [
          | inl image ↦ (
            λ h. ground (arith, h, image, upload_image-checks f t),
            λ h. (f, (refl, ground (arith, h, image, upload_image-checks f t))),
          )
          | inr other ↦ elim (Bool-cases (allowed_video_mime t)) [
            | inl video ↦ (
              λ h. ground (arith, h, other, video, upload_video-checks f t),
              λ h. (f, (refl, ground (arith, h, other, video, upload_video-checks f t))),
            )
            | inr neither ↦ (
              λ h. ground (arith, other, neither),
              λ h. absurd (ground (arith, h, other, neither)),
            )
          ]
        ]
