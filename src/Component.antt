-- ===== src/Component.antt =====
-- m2tlib/descriptor.c: the component descriptor.
use tsanalytics.Base.{
  ℕ, ◌/◌, ◌%◌, ◌≤◌, ◌<◌, ◌≡◌, refl, List, Option, none, some, length, replicate, IsBytes, byte_at,
  byte_at-lt, u8, arith,
}
use tsanalytics.GetBit.{get_bit}
use tsanalytics.GetBit.Word.{word}
use tsanalytics.GetBit.Stream.{get_at}
use tsanalytics.Reader.{◌>>=◌, return, get, run}

-- `DESC_COMPONENT`, with `NULL` as `none`.
pub record DescComponent : Type 0 where
  pub stream_content : ℕ
  pub component_type : ℕ
  pub component_tag : ℕ
  pub langcode : List ℕ
  pub text_char : Option (List ℕ)

-- The struct is cleared by `calloc`; its last two fields stay so.
pub st_desc_component : List ℕ → Option DescComponent
st_desc_component buf = run (do
  gomi ← get buf 4
  content ← get buf 4
  type ← get buf 8
  tag ← get buf 8
  return (record {
    stream_content = u8 content;
    component_type = u8 type;
    component_tag = u8 tag;
    langcode = replicate 24 0;
    text_char = none;
  }))

module _ (buf : List ℕ) (b : IsBytes buf) (room : 10 ≤ length buf) where
  lt : (i : ℕ) → byte_at buf i < 256
  lt i = byte_at-lt buf i b

  get_gomi : get_bit buf 0 4 ≡ some (byte_at buf 0 / 16, 4)
  unfolding word
  get_gomi = get_at buf b 0 0 0 4 refl (omega arith) (omega arith) (omega (arith, lt)) refl

  get_content : get_bit buf 4 4 ≡ some (byte_at buf 0 % 16, 8)
  unfolding word
  get_content = get_at buf b 4 0 4 4 refl (omega arith) (omega arith) (omega (arith, lt)) refl

  get_type : get_bit buf 8 8 ≡ some (byte_at buf 1, 16)
  unfolding word
  get_type = get_at buf b 8 1 0 8 refl (omega arith) (omega arith) (omega (arith, lt)) refl

  get_tag : get_bit buf 16 8 ≡ some (byte_at buf 2, 24)
  unfolding word
  get_tag = get_at buf b 16 2 0 8 refl (omega arith) (omega arith) (omega (arith, lt)) refl

  content_small : u8 (byte_at buf 0 % 16) ≡ byte_at buf 0 % 16
  content_small = omega (arith, lt)

  type_small : u8 (byte_at buf 1) ≡ byte_at buf 1
  type_small = omega (arith, lt)

  tag_small : u8 (byte_at buf 2) ≡ byte_at buf 2
  tag_small = omega (arith, lt)

  -- The first three bytes of at least ten give the content, the type and the tag.
  st_desc_component-fields :
      st_desc_component buf
      ≡ some (record {
        stream_content = byte_at buf 0 % 16;
        component_type = byte_at buf 1;
        component_tag = byte_at buf 2;
        langcode = replicate 24 0;
        text_char = none;
      })
  unfolding st_desc_component
  st_desc_component-fields =
      rw (st_desc_component, get_gomi, run, ◌>>=◌, get_content, get_type, get_tag)
        (λ j. some (record {
          stream_content = content_small j;
          component_type = type_small j;
          component_tag = tag_small j;
          langcode = replicate 24 0;
          text_char = none;
        }))
