-- ===== src/Nav.antt =====
-- website/lib/docs-nav.ts: the documentation's table of contents and the neighbours of a page.
pub mod Adjacent
use kube_cell.Common.{
  ℕ, zero, suc, ◌+◌, ◌-◌, List, [], ◌∷◌, ◌++◌, Option, none, some, Text, units, text_eq, length,
  ltb, get_elem?, if◌then◌else◌,
}

pub record DocLink : Type 0 where
  pub title : Text
  pub href : Text
  pub description : Option Text

pub record DocNavGroup : Type 0 where
  pub label : Text
  pub items : List DocLink

unfoldable pub docs_nav : List DocNavGroup
docs_nav =
    record {
      label = units "Introduction";
      items =
          record {
            title = units "Overview";
            href = units "/docs/";
            description =
                some (units "What KubeCell is, who it is for, and how the pieces fit together.");
          }
          ∷ record {
            title = units "Core concepts";
            href = units "/docs/concepts/";
            description = some (
                units
                  "The four KubeCell resources, quota tiers, and how a cluster maps to a host.");
          }
          ∷ [];
    }
    ∷ record {
      label = units "Getting started";
      items =
          record {
            title = units "Installation";
            href = units "/docs/installation/";
            description = some (
                units
                  "Install the management cluster, connect a host, and prepare it for tenants.");
          }
          ∷ record {
            title = units "First VirtualCluster";
            href = units "/docs/first-virtualcluster/";
            description =
                some
                  (units "Preflight a request, create your first cluster, and get the kubeconfig.");
          }
          ∷ record {
            title = units "Host onboarding";
            href = units "/docs/host-onboarding/";
            description =
                some (units "The four-command flow that adds a physical host to KubeCell.");
          }
          ∷ [];
    }
    ∷ record {
      label = units "Guides";
      items =
          record {
            title = units "Day-2 operations";
            href = units "/docs/operations/";
            description = some (
                units "Inventory checks, credentials, quota changes, ingress, upgrades, deletion.");
          }
          ∷ record {
            title = units "API reference";
            href = units "/docs/api-reference/";
            description = some (units "Every CRD field, immutability rule, and status condition.");
          }
          ∷ record {
            title = units "Security & isolation";
            href = units "/docs/security/";
            description =
                some (units "Namespace, quota, policy, and admission controls per child cluster.");
          }
          ∷ record {
            title = units "Troubleshooting";
            href = units "/docs/troubleshooting/";
            description =
                some (units "Symptom-first diagnostics across Cell, Work, child API, and storage.");
          }
          ∷ record {
            title = units "FAQ";
            href = units "/docs/faq/";
            description = some (units "Short answers about scope, limits, and design trade-offs.");
          }
          ∷ [];
    }
    ∷ []

abbrev pub flat_items : List DocNavGroup → List DocLink
flat_items [] = []
flat_items (group ∷ groups) = group.items ++ flat_items groups

unfoldable pub docs_flat : List DocLink
unfolding docs_nav
docs_flat = flat_items docs_nav

-- `items.findIndex((item) => item.href === pathname)`; -1 is `none`.
unfoldable pub find_index : Text → List DocLink → Option ℕ
find_index pathname [] = none
find_index pathname (item ∷ items) =
    let later = find_index pathname items in
    if text_eq item.href pathname
    then some 0
    else elim later [ none ↦ none | some i ↦ some (suc i) ]

pub record Neighbors : Type 0 where
  pub previous : Option DocLink
  pub next : Option DocLink

-- The two fields, at the index found.
abbrev pub neighbors_at : List DocLink → Option ℕ → Neighbors
neighbors_at docs none = record { previous = none; next = none }
neighbors_at docs (some index) = record {
  previous = if ltb 0 index then get_elem? docs (index - 1) else none;
  next = if ltb index (length docs - 1) then get_elem? docs (index + 1) else none;
}

-- `docNeighbors`, for any table of contents.
unfoldable pub neighbors_in : List DocLink → Text → Neighbors
unfolding find_index
neighbors_in docs pathname = neighbors_at docs (find_index pathname docs)

unfoldable pub doc_neighbors : Text → Neighbors
unfolding neighbors_in docs_flat
doc_neighbors pathname = neighbors_in docs_flat pathname
