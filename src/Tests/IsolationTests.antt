-- ===== src/Tests/IsolationTests.antt =====
-- internal/app/service/sync_service.go over a store that counts the contents of each provider.
use mathlib.Core.Bool.{false≢true}
use search_engine_service.Base.{
  ℕ, ◌+◌, ◌≡◌, ◌≢◌, refl, ap, subst, String, List, [], ◌∷◌, All, arith, ==_iff, ◌==◌, string_eq,
  if◌then◌else◌, none,
}
use search_engine_service.Base.Int.{ℤ, pos}
use search_engine_service.Base.Effects.{plain, Result, ok, err}
use search_engine_service.Domain.Content.{Content}
use search_engine_service.Domain.Ports.{ContentRepository, Provider}
use search_engine_service.Service.Sync.{SyncService, sync_all}
use search_engine_service.Service.Sync.Isolation.{SameContents, StoreIsLocal}
use search_engine_service.Service.Sync.Isolation.AnyOrder.{
  Fetches, AllDistinct, AllAsAlone, sync_all-AllAsAlone,
}
use search_engine_service.Tests.Fakes.{content_of}

abbrev Counts : Type 0
Counts = String → ℕ

abbrev view : Counts → String → ℕ
view w n = w n

number_of : String → List (Content ℤ) → ℕ
number_of n [] = 0
number_of n (c ∷ cs) = (if c.provider_id == n then 1 else 0) + number_of n cs

number_of-others :
    (n m : String) (cs : List (Content ℤ))
    → All (λ (c : Content ℤ). c.provider_id ≡ n) cs
    → m ≢ n
    → number_of m cs ≡ 0
unfolding number_of
number_of-others n m [] own other = refl
number_of-others n m (c ∷ cs) own other =
    ground (arith, ==_iff c.provider_id m, number_of-others n m cs)

number_of-Same :
    (n : String) (cs ds : List (Content ℤ)) → SameContents cs ds → number_of n cs ≡ number_of n ds
unfolding number_of
number_of-Same n [] [] same = refl
number_of-Same n [] (d ∷ ds) same = absurd (elim same [ ])
number_of-Same n (c ∷ cs) [] same = absurd (elim same [ ])
number_of-Same n (c ∷ cs) (d ∷ ds) same =
    let owner : c.provider_id ≡ d.provider_id = ap (λ (x : Content ℤ). x.provider_id) same.0 in
    let rest = number_of-Same n cs ds same.1 in rw (owner, rest)

abbrev counting : ContentRepository ℤ Counts
counting = record {
  search = λ p w. (err (plain "not used"), w);
  get_by_id = λ id w. (ok none, w);
  get_by_provider_and_external_id = λ p e w. (ok none, w);
  upsert = λ c w. (ok c, w);
  bulk_upsert = λ cs w. (ok cs, λ n. number_of n cs + w n);
  delete = λ id w. (ok tt, w);
  count = λ p w. (ok (pos 0), w);
}

abbrev own_content : String → String → Content ℤ
own_content n t = record (content_of t "video") { provider_id = n }

abbrev provider_a : Provider ℤ Counts
provider_a = record {
  name = "provider_a";
  fetch = λ w. (ok (own_content "provider_a" "x" ∷ own_content "provider_a" "y" ∷ []), w);
  health_check = λ w. (ok tt, w);
}

abbrev provider_b : Provider ℤ Counts
provider_b = record {
  name = "provider_b";
  fetch = λ w. (err (plain "down"), w);
  health_check = λ w. (ok tt, w);
}

abbrev two : SyncService ℤ Counts
two = record { repo = counting; providers = provider_a ∷ provider_b ∷ []; clock = λ w. (pos 7, w) }

two-StoreIsLocal : StoreIsLocal view two
two-StoreIsLocal = record {
  reads = λ n cs ds v w own same e. refl;
  moves = λ n cs ds v w own same e. let many = number_of-Same n cs ds same in omega arith;
  spares =
      λ n m cs w own other. let none_of_them = number_of-others n m cs own other in omega arith;
  clock_spares = λ w n. refl;
}

delivered : Result (List (Content ℤ)) → List (Content ℤ)
delivered (ok cs) = cs
delivered (err e) = []

provider_a-own :
    (cs : List (Content ℤ))
    → ok (own_content "provider_a" "x" ∷ own_content "provider_a" "y" ∷ []) ≡ ok cs
    → All (λ (c : Content ℤ). c.provider_id ≡ "provider_a") cs
unfolding delivered
provider_a-own cs e =
    subst (All (λ (c : Content ℤ). c.provider_id ≡ "provider_a")) (ap delivered e)
      (refl, (refl, tt))

two-Fetches : Fetches view two two-StoreIsLocal two.providers
two-Fetches = (
  record {
    own = λ w cs e. provider_a-own cs e;
    reads = λ v w e. (refl, (refl, tt));
    moves = λ v w e. e;
    spares = λ w n other. refl;
  },
  (
    record {
      own = λ w cs e. cc;
      reads = λ v w e. refl;
      moves = λ v w e. e;
      spares = λ w n other. refl;
    },
    tt,
  ),
)

a-ne-b : ◌≢◌ {A = String} "provider_a" "provider_b"
a-ne-b e = false≢true ((==_iff "provider_a" "provider_b").1 e)

two-AllDistinct : AllDistinct view two two-StoreIsLocal two.providers
two-AllDistinct = ((a-ne-b, tt), (tt, tt))

sync_all-AllAsAlone_example :
    AllAsAlone view two two-StoreIsLocal
      (λ n. 0)
      two.providers
      (sync_all two (1 ∷ 0 ∷ 1 ∷ 5 ∷ []) (λ n. 0)).0
      (sync_all two (1 ∷ 0 ∷ 1 ∷ 5 ∷ []) (λ n. 0)).1
sync_all-AllAsAlone_example =
    sync_all-AllAsAlone view two two-StoreIsLocal (1 ∷ 0 ∷ 1 ∷ 5 ∷ []) (λ n. 0) two-Fetches
      two-AllDistinct
