-- ===== src/Aup.antt =====
-- aup.c: the adaptive update policy, an array of data items with their access and update counts,
-- validity intervals and next update times. `float` arithmetic is the parameter `fp`, and the
-- answer of `gettimeofday` an argument. Counts do not overflow their `long long` here.
pub mod Valid
pub mod Kept
pub mod Counts
pub mod Expired
pub mod Relax
pub mod Tests
use chronos_xserver.Prelude.{
  ℕ, zero, suc, ◌+◌, ◌-◌, ◌%◌, ◌^◌, Bool, true, false, ◌&&◌, Option, none, some, List, [], ◌∷◌,
  ◌++◌, leb, ltb, ◌==◌, if◌then◌else◌, length, get_elem?, set, take, ℤ, pos, negsuc, pos_part,
  ltb_ℤ, replicate,
}
use chronos_xserver.Floats.{Floats}
use chronos_xserver.Time.{Timeval, msec}

-- CHRONOS_AUP_MAGIC
abbrev pub aup_magic : ℕ
aup_magic = 0xDEAD

-- A call ends, or stops at an assertion, or leaves its memory.
pub data Call {ℓ} (A : Type ℓ) : Type ℓ where
  done : A → Call A
  aborted : Call A
  overrun : Call A

infixl 5 ◌>>=◌ ◌>>◌
abbrev pub ◌>>=◌ {ℓ κ} : {A : Type ℓ} {B : Type κ} → Call A → (A → Call B) → Call B
done a >>= f = f a
aborted >>= f = aborted
overrun >>= f = overrun

abbrev pub ◌>>◌ {ℓ} : {B : Type ℓ} → Call (Unit {0}) → Call B → Call B
m >> k = m >>= λ _. k

abbrev pub assert : Bool → Call (Unit {0})
assert true = done tt
assert false = aborted

abbrev pub minus_one : ℤ
minus_one = negsuc 0

module _ (fp : Floats) where
  open fp use {
    Float, Double, widen, narrow, float_of, double_of, literal, add_f, mul_f, div_f, le_f, lt_f,
    add_d, mul_d, trunc_f, trunc_d,
  }

  -- `chronos_aup_data_t`
  pub record DataItem : Type 0 where
    pub data_item_id : ℕ
    pub access_update_rate : Float
    pub access_frequency : ℕ
    pub update_frequency : ℕ
    pub flexible_validity_interval : Float
    pub absolute_validity_interval : Float
    pub beta : Float
    pub time_to_next_update : ℤ

  -- `chronos_aup_env_t`; the array has one slot more than `num_elements`.
  pub record AupEnv : Type 0 where
    pub magic : ℕ
    pub env_beta : Float
    pub p_ext : Float
    pub num_elements : ℕ
    pub data_array : List DataItem

  -- the literals 0.0f and 1.0f
  abbrev pub zero_f : Float
  zero_f = float_of (pos 0)

  abbrev pub one_f : Float
  one_f = float_of (pos 1)

  -- a slot as `calloc` leaves it
  abbrev pub zero_item : DataItem
  zero_item = record {
    data_item_id = 0;
    access_update_rate = zero_f;
    access_frequency = 0;
    update_frequency = 0;
    flexible_validity_interval = zero_f;
    absolute_validity_interval = zero_f;
    beta = zero_f;
    time_to_next_update = pos 0;
  }

  -- the loop of `chronos_aup_env_alloc`, with `left` items from index `i` to go
  abbrev pub init_items : Float → Float → ℕ → ℕ → List DataItem
  init_items avi beta zero i = []
  init_items avi beta (suc left) i =
      record zero_item {
        data_item_id = i;
        absolute_validity_interval = avi;
        flexible_validity_interval = avi;
        access_update_rate = one_f;
        beta = beta;
      }
      ∷ init_items avi beta left (i + 1)

  -- `none` is the NULL of a failed `calloc`.
  unfoldable pub env_alloc : Bool → ℤ → Float → Float → Call (Option AupEnv)
  env_alloc calloc_ok num_elements avi beta = do
    assert (ltb_ℤ (pos 0) num_elements)
    assert (lt_f zero_f beta)
    assert (lt_f zero_f avi)
    done (
        if calloc_ok
        then some (record {
          magic = aup_magic;
          env_beta = beta;
          p_ext = one_f;
          num_elements = pos_part num_elements;
          data_array = init_items avi beta (pos_part num_elements) 0 ++ (zero_item ∷ []);
        })
        else none)

  -- CHRONOS_AUP_MAGIC_CHECK
  abbrev pub magic_check : AupEnv → Call (Unit {0})
  magic_check env = assert (env.magic == aup_magic)

  -- `assert(0 <= element_idx && element_idx < envP->num_elements)`
  abbrev pub checked_index : AupEnv → ℤ → Call ℕ
  checked_index env (negsuc n) = aborted
  checked_index env (pos i) = do assert (ltb i env.num_elements); done i

  -- an access to `data_array[i]`
  unfoldable pub item_at : AupEnv → ℕ → Call DataItem
  item_at env i = elim (get_elem? env.data_array i) [ none ↦ overrun | some d ↦ done d ]

  -- a change to `data_array[i]`
  unfoldable pub update_item : AupEnv → ℕ → (DataItem → DataItem) → Call AupEnv
  update_item env i f = elim (get_elem? env.data_array i) [
    | none ↦ overrun
    | some d ↦ done (record env { data_array = set env.data_array i (f d) })
  ]

  abbrev pub with_access : ℕ → DataItem → DataItem
  with_access n d = record d { access_frequency = n }

  abbrev pub with_update : ℕ → DataItem → DataItem
  with_update n d = record d { update_frequency = n }

  unfoldable pub af_incr : AupEnv → ℤ → Call AupEnv
  af_incr env idx = do
    magic_check env
    i ← checked_index env idx
    update_item env i (λ d. with_access (d.access_frequency + 1) d)

  unfoldable pub af_reset : AupEnv → ℤ → Call AupEnv
  af_reset env idx = do
    magic_check env
    i ← checked_index env idx
    update_item env i (with_access 0)

  unfoldable pub uf_incr : AupEnv → ℤ → Call AupEnv
  uf_incr env idx = do
    magic_check env
    i ← checked_index env idx
    update_item env i (λ d. with_update (d.update_frequency + 1) d)

  unfoldable pub uf_reset : AupEnv → ℤ → Call AupEnv
  uf_reset env idx = do
    magic_check env
    i ← checked_index env idx
    update_item env i (with_update 0)

  -- the loop of `chronos_aup_reset_all`
  pub reset_from : ℕ → ℕ → AupEnv → Call AupEnv
  reset_from zero i env = done env
  reset_from (suc left) i env = do
    env' ← uf_reset env (pos i)
    env'' ← af_reset env' (pos i)
    reset_from left (i + 1) env''

  pub reset_all : AupEnv → Call AupEnv
  reset_all env = do magic_check env; reset_from env.num_elements 0 env

  pub data_get : AupEnv → ℤ → Call DataItem
  data_get env idx = do magic_check env; i ← checked_index env idx; item_at env i

  unfoldable pub pext_get : AupEnv → Call Float
  pext_get env = do magic_check env; done env.p_ext
