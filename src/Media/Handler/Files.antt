-- ===== src/Media/Handler/Files.antt =====
-- What an upload of an image stores: internal/media/handler.go.
use chatroom_server.Base.{
  ℕ, ◌≤◌, ◌≡◌, ◌≢◌, refl, sym, ap, ◌∙◌, String, Bool, true, some, List, [], ◌∷◌, take, length,
  arith, Option-cases, inl, inr,
}
use chatroom_server.Action.{Result}
use chatroom_server.Http.{Response}
use chatroom_server.Storage.{Store, IsStore}
use chatroom_server.Media.Thumbnail.{Float}
use chatroom_server.Media.Handler.{
  File, Images, max_image_size, new_id, read_up_to, read_image, make_thumbnail, store_image,
  upload_image,
}
use chatroom_server.World.{response_of}
use mathlib.Core.Path.{subst}

abbrev pub status_of {ℓ} : {A : Type ℓ} → Result Response Response × A → ℕ
status_of (r, s) = (response_of r).status

-- What an upload of an image stores under its two ids.
pub record Held (S : Store) (I : Images) (L : Float) (content_type id thumb_id : String)
    (data' : List ℕ) (img : I.Image) (s : S.State) : Type 0 where
  pub file_held : S.held s id ≡ some (record { content = data'; content_type = content_type })
  pub thumb_held :
      S.held s thumb_id
      ≡ some (record { content = make_thumbnail I L img; content_type = "image/jpeg" })

take_all {ℓ} : {A : Type ℓ} → (xs : List A) → take (length xs) xs ≡ xs
take_all [] = refl
take_all (x ∷ xs) = ap (λ ys. x ∷ ys) (take_all xs)

read_up_to-length :
    (limit : ℕ) (f : File) (data' : List ℕ) → read_up_to limit f ≡ some data' → length data' ≤ limit
unfolding read_up_to
read_up_to-length limit f data' e = ground arith

module _ (S : Store) (lawful : IsStore S) (I : Images) (L : Float) (drawn drawn_thumb : List ℕ)
    (content_type : String) (s : S.State) where
  module _ (data' : List ℕ) (img : I.Image) where
    first : Bool × S.State
    first = S.put s (new_id drawn) data' (length data') content_type

    second : Bool × S.State
    second =
        let thumb = make_thumbnail I L img in
        S.put first.1 (new_id drawn_thumb) thumb (length thumb) "image/jpeg"

    store_image-status :
        status_of (store_image S I L drawn drawn_thumb content_type data' img s) ≡ 200
        → (first.0 ≡ true) × (second.0 ≡ true)
    unfolding store_image first second
    store_image-status h = ground arith

    store_image-state :
        first.0 ≡ true → (store_image S I L drawn drawn_thumb content_type data' img s).1 ≡ second.1
    unfolding store_image first second
    store_image-state h = ground arith

    second-Held :
        first.0 ≡ true
        → second.0 ≡ true
        → new_id drawn ≢ new_id drawn_thumb
        → Held S I L content_type (new_id drawn) (new_id drawn_thumb) data' img second.1
    unfolding first second
    second-Held h k differ = record {
      file_held =
          lawful.held-put_ne first.1 (new_id drawn_thumb) (new_id drawn) (make_thumbnail I L img)
            (length (make_thumbnail I L img)) "image/jpeg" differ
          ∙ lawful.held-put s (new_id drawn) data' (length data') content_type h
          ∙ ap (λ d. some (record { content = d; content_type = content_type })) (take_all data');
      thumb_held =
          lawful.held-put first.1 (new_id drawn_thumb) (make_thumbnail I L img)
            (length (make_thumbnail I L img)) "image/jpeg" k
          ∙ ap (λ d. some (record { content = d; content_type = "image/jpeg" }))
              (take_all (make_thumbnail I L img));
    }

    store_image-Held :
        status_of (store_image S I L drawn drawn_thumb content_type data' img s) ≡ 200
        → new_id drawn ≢ new_id drawn_thumb
        → Held S I L content_type
            (new_id drawn)
            (new_id drawn_thumb)
            data'
            img
            (store_image S I L drawn drawn_thumb content_type data' img s).1
    store_image-Held h differ =
        let (h1, h2) = store_image-status h in
        subst (λ t. Held S I L content_type (new_id drawn) (new_id drawn_thumb) data' img t)
          (sym (store_image-state h1)) (second-Held h1 h2 differ)

  module _ (f : File) where
    abbrev stored : Result Response Response × S.State
    stored = upload_image S I L drawn drawn_thumb f content_type s

    upload_image-is :
        (data' : List ℕ) (img : I.Image)
        → read_image f ≡ some data'
        → I.decode data' ≡ some img
        → status_of stored ≡ 200
        → stored ≡ store_image S I L drawn drawn_thumb content_type data' img s
    unfolding upload_image
    upload_image-is data' img e good h = ground (arith, e, good)

    read_image-length : (data' : List ℕ) → read_image f ≡ some data' → length data' ≤ max_image_size
    unfolding read_image
    read_image-length data' e = read_up_to-length max_image_size f data' e

    -- Over a store that keeps the laws of a store: an upload of an image that answers with status 200, and
    -- whose two ids differ, has read a file of at most 10 MB, without an error, that is an image. The store
    -- then has what was read and the type under the one id, and the thumbnail under the other.
    pub upload_image-Held :
        status_of stored ≡ 200
        → new_id drawn ≢ new_id drawn_thumb
        → (data' : List ℕ) × ((img : I.Image) × ((read_image f ≡ some data')
              × ((length data' ≤ max_image_size)
                  × ((I.decode data' ≡ some img)
                      × Held S I L content_type
                          (new_id drawn)
                          (new_id drawn_thumb)
                          data'
                          img
                          stored.1))))
    unfolding upload_image
    upload_image-Held h differ = elim (Option-cases (read_image f)) [
      | inl e ↦ absurd (ground (arith, e))
      | inr (data', e) ↦ elim (Option-cases (I.decode data')) [
        | inl bad ↦ absurd (ground (arith, e, bad))
        | inr (img, good) ↦
            let same = upload_image-is data' img e good h in
            (
              data',
              (
                img,
                (
                  e,
                  (
                    read_image-length data' e,
                    (
                      good,
                      subst
                          (λ t.
                            Held S I L content_type (new_id drawn) (new_id drawn_thumb) data' img
                              t.1)
                          (sym same)
                          (store_image-Held data' img (sym (ap (λ r. status_of r) same) ∙ h)
                            differ),
                    ),
                  ),
                ),
              ),
            )
      ]
    ]
