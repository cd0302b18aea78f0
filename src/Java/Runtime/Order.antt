-- ===== src/Java/Runtime/Order.antt =====
-- The text of the providers does not depend on the order in which the properties are read.
use jvm_vendors.Base.{◌≡◌, ap, List}
use mathlib.Core.List.{Perm}
use mathlib.Core.List.Perm
use jvm_vendors.Base.Text.{Text, codes, join}
use jvm_vendors.Base.Text.Sorting.{text_order}
use jvm_vendors.Base.Sorting.{sort-Perm}
use jvm_vendors.Java.Runtime.{indexed_provider, providers_text}

-- BPI_JVM_SECURITY_PROVIDERS is the same text in whatever order the map of the properties gives its
-- entries.
pub providers_text-Perm :
    {xs ys : List (Text × Text)} → Perm xs ys → providers_text xs ≡ providers_text ys
unfolding providers_text
providers_text-Perm {xs} {ys} p =
    ap (λ ps. join ps (codes " ")) (sort-Perm text_order (hlevel) (Perm.map indexed_provider p))
