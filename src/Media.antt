-- ===== src/Media.antt =====
-- internal/media: uploads of images and videos, and downloads.
pub mod Thumbnail
pub mod Handler
