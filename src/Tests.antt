-- ===== src/Tests.antt =====
-- The theorems at concrete inputs, and runs of the reconcilers against clusters in memory. The custom
-- resources of `Cluster` are those of a read cache, which does not follow the writes of the run; its
-- objects and its console are stored. `Reliable` stores the hub resources too.
mod Cluster
mod Store
mod PluginSuccess
mod Success
mod Access
mod Both
mod PluginFaults
mod Faults
mod Reliable
mod Operator
mod Overtaken
mod Plugins
mod Objects
mod Main
mod Patches
mod PluginRuns
mod DeepCopy
mod Interleavings
