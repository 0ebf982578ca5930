-- ===== src/Network/Interface/Query.antt =====
-- network/interface_discovery.cpp: asking Windows for the adapters, with a buffer that grows.
use ip_finder.Common.{
  ℕ, zero, suc, ◌+◌, ◌*◌, ◌<◌, ◌≡◌, ◌⊎◌, inl, inr, refl, subst, ◌++◌, List, Option, arith,
}
use ip_finder.Common.Bytes.{Bytes, codes}
use ip_finder.Network.Interface.{Adapter}
use ip_finder.Platform.{socket_error_text}

-- What GetAdaptersAddresses gives: the list, the size that it needs, or another error code.
pub data Answer : Type 0 where
  adapters : List Adapter → Answer
  overflow : ℕ → Answer
  failure : ℕ → Answer

-- The list, or the text of the exception that is thrown.
pub data Queried : Type 0 where
  listed : List Adapter → Queried
  thrown : Bytes → Queried

abbrev overflow_text : Bytes
overflow_text = codes "GetAdaptersAddresses() kept reporting ERROR_BUFFER_OVERFLOW"

-- The end of one attempt, and what follows with the size that is needed.
abbrev on_answer : (ℕ → Option Bytes) → Answer → (ℕ → Queried) → Queried
on_answer messages (adapters found) next = listed found
on_answer messages (overflow size) next = next size
on_answer messages (failure code) next =
    thrown (codes "GetAdaptersAddresses() failed: " ++ socket_error_text messages code)

-- The loop, with the attempts that are left, and the answer to an attempt with a size.
unfoldable pub query_loop : (ℕ → Option Bytes) → (ℕ → ℕ → Answer) → ℕ → ℕ → ℕ → Queried
query_loop messages ask zero attempt size = thrown overflow_text
query_loop messages ask (suc left) attempt size =
    on_answer messages (ask attempt size) (query_loop messages ask left (suc attempt))

unfoldable pub query_adapter_addresses : (ℕ → Option Bytes) → (ℕ → ℕ → Answer) → Queried
unfolding query_loop
query_adapter_addresses messages ask = query_loop messages ask 4 0 (16 * 1024)

-- The query makes attempt `k` with the size: 16 KiB at first, and then what the attempt before has
-- asked for.
abbrev pub Asks : (ℕ → ℕ → Answer) → ℕ → ℕ → Type 0
Asks ask zero size = size ≡ 16384
Asks ask (suc k) size = (before : ℕ) × Asks ask k before × (ask k before ≡ overflow size)

-- The end of the query at one of its four attempts, with a list or with an error, or after them.
abbrev pub IsQueried : (ℕ → Option Bytes) → (ℕ → ℕ → Answer) → Queried → Type 0
IsQueried messages ask q =
    ((k : ℕ) × (size : ℕ) × (k < 4)
      × Asks ask k size
      × (((found : List Adapter) × (ask k size ≡ adapters found) × (q ≡ listed found))
          ⊎ ((code : ℕ) × (ask k size ≡ failure code)
              × (q
                  ≡ thrown (
                      codes "GetAdaptersAddresses() failed: "
                      ++ socket_error_text messages code)))))
    ⊎ ((size : ℕ) × Asks ask 4 size × (q ≡ thrown overflow_text))

query_loop-IsQueried :
    (messages : ℕ → Option Bytes) (ask : ℕ → ℕ → Answer) (left k size : ℕ)
    → k + left ≡ 4
    → Asks ask k size
    → IsQueried messages ask (query_loop messages ask left k size)
unfolding query_loop
query_loop-IsQueried messages ask zero k size e asked =
    let last : k ≡ 4 = omega (arith, e) in inr (size, subst (λ j. Asks ask j size) last asked, refl)
query_loop-IsQueried messages ask (suc left) k size e asked =
    answered (ask k size) refl (query_loop-IsQueried messages ask left (suc k))
  where
    answered :
        (a : Answer)
        → ask k size ≡ a
        → ((needed : ℕ)
            → suc k + left ≡ 4
            → Asks ask (suc k) needed
            → IsQueried messages ask (query_loop messages ask left (suc k) needed))
        → IsQueried messages ask (on_answer messages a (query_loop messages ask left (suc k)))
    answered (adapters found) given next =
        inl (k, size, omega (arith, e), asked, inl (found, given, refl))
    answered (failure code) given next =
        inl (k, size, omega (arith, e), asked, inr (code, given, refl))
    answered (overflow needed) given next = next needed (omega (arith, e)) (size, asked, given)

-- Whatever Windows answers: the query starts with 16 KiB and makes each further attempt with the
-- size that the one before has asked for; it gives the list of the first of its four attempts that
-- gets one, throws the text of the first other error, and throws an exception of its own where all
-- four ask for more.
pub query_adapter_addresses-IsQueried :
    (messages : ℕ → Option Bytes) (ask : ℕ → ℕ → Answer)
    → IsQueried messages ask (query_adapter_addresses messages ask)
unfolding query_adapter_addresses
query_adapter_addresses-IsQueried messages ask =
    query_loop-IsQueried messages ask 4 0 (16 * 1024) refl refl
